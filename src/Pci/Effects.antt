-- ===== src/Pci/Effects.antt =====
-- What the scan of the buses changes: port accesses to configuration space, and five variables.
use mathlib.Core.List.{append_assoc}
use qboot.Base.{
  All-append, subst, ℕ, ◌≤◌, ◌<◌, ◌≡◌, ◌∙◌, refl, sym, ap, arith, List, [], ◌++◌, All, ◌^◌,
}
use qboot.Machine.{
  Machine, Globals, Io, out, inp, Fw, Outcome, ok, panicked, booted, undefined, out_of_fuel,
  and_then, ◌>>=◌, gets, pure, modify,
}

-- An access to the address or data ports of configuration space.
abbrev pub IsConfigPort : ℕ → Type 0
IsConfigPort p = (0xcf8 ≤ p) × (p < 0xd00)

abbrev pub IsConfig : Io → Type 0
IsConfig (out w p v) = IsConfigPort p
IsConfig (inp w p) = IsConfigPort p

-- `s` with more port accesses, and with other values of the variables of the scan.
abbrev pub scanned : Machine → List Io → (addend bus bridge_head bridge_count max_bus : ℕ) → Machine
scanned s ios a b h c x = record s {
  io = ios ++ s.io;
  globals = record s.globals {
    addend = a;
    bus = b;
    bridge_head = h;
    bridge_count = c;
    max_bus = x;
  };
}

-- From `s` to `t` only that has changed, all accesses are to configuration space, and `R` relates
-- the old and the new value of `addend`.
pub record Scanned (R : ℕ → ℕ → Type 0) (s t : Machine) : Type 0 where
  pub ios : List Io
  pub addend : ℕ
  pub bus : ℕ
  pub head : ℕ
  pub count : ℕ
  pub max : ℕ
  pub config : All IsConfig ios
  pub related : R s.globals.addend addend
  pub is : t ≡ scanned s ios addend bus head count max

-- `R` and then `S`.
abbrev pub Then : (R S : ℕ → ℕ → Type 0) → ℕ → ℕ → Type 0
Then R S a c = (b : ℕ) × R a b × S b c

-- `addend` is a `uint16_t`, and has the old value again.
abbrev pub Same : ℕ → ℕ → Type 0
Same a b = a < 2 ^ 16 → b ≡ a

Scanned-trans :
    {R S : ℕ → ℕ → Type 0} {s t u : Machine}
    → Scanned R s t
    → Scanned S t u
    → Scanned (Then R S) s u
Scanned-trans {R} {S} {s} {t} {u} p q = record {
  ios = q.ios ++ p.ios;
  addend = q.addend;
  bus = q.bus;
  head = q.head;
  count = q.count;
  max = q.max;
  config = All-append IsConfig q.ios p.ios q.config p.config;
  related = (p.addend, p.related, subst (λ m. S m.globals.addend q.addend) p.is q.related);
  is =
      q.is
      ∙ ap (λ t. scanned t q.ios q.addend q.bus q.head q.count q.max) p.is
      ∙ ap (λ io. record (scanned s [] q.addend q.bus q.head q.count q.max) { io = io })
          (sym (append_assoc q.ios p.ios s.io));
}

Scanned-weaken :
    {R S : ℕ → ℕ → Type 0} {s t : Machine}
    → ((a b : ℕ) → R a b → S a b)
    → Scanned R s t
    → Scanned S s t
Scanned-weaken {R} {S} {s} {t} h p = record {
  ios = p.ios;
  addend = p.addend;
  bus = p.bus;
  head = p.head;
  count = p.count;
  max = p.max;
  config = p.config;
  related = h s.globals.addend p.addend p.related;
  is = p.is;
}

-- The run returns with `P`, or ends for want of fuel, where `X` allows for that.
abbrev pub Ends : {A : Type 0} → Type 0 → (A → Machine → Type 0) → Outcome A → Type 0
Ends X P (ok a t) = P a t
Ends X P (panicked t) = ⊥
Ends X P (booted k t) = ⊥
Ends X P undefined = ⊥
Ends X P out_of_fuel = X

pub and_then-Ends :
    {A B : Type 0} (X : Type 0) (P : A → Machine → Type 0) (Q : B → Machine → Type 0)
    (o : Outcome A) (k : A → Fw B)
    → Ends X P o
    → ((a : A) (t : Machine) → P a t → Ends X Q (k a t))
    → Ends X Q (and_then o k)
and_then-Ends X P Q (ok a t) k h r = r a t h
and_then-Ends X P Q (panicked t) k h r = h
and_then-Ends X P Q (booted e t) k h r = h
and_then-Ends X P Q undefined k h r = h
and_then-Ends X P Q out_of_fuel k h r = h

pub Ends-weaken :
    {A : Type 0} (X : Type 0) (P Q : A → Machine → Type 0) (o : Outcome A)
    → Ends X P o
    → ((a : A) (t : Machine) → P a t → Q a t)
    → Ends X Q o
Ends-weaken X P Q (ok a t) h r = r a t h
Ends-weaken X P Q (panicked t) h r = h
Ends-weaken X P Q (booted e t) h r = h
Ends-weaken X P Q undefined h r = h
Ends-weaken X P Q out_of_fuel h r = h

-- The program only changes that.
pub record Scans {A : Type 0} (X : Type 0) (R : ℕ → ℕ → Type 0) (m : Fw A) : Type 0 where
  pub runs : (s : Machine) → Ends X (λ _ t. Scanned R s t) (m s)

pub Scans-weaken :
    {A : Type 0} {X : Type 0} {R S : ℕ → ℕ → Type 0} {m : Fw A}
    → ((a b : ℕ) → R a b → S a b)
    → Scans X R m
    → Scans X S m
Scans-weaken {A} {X} {R} {S} {m} h p = record {
  runs = λ s.
      Ends-weaken X (λ _ t. Scanned R s t) (λ _ t. Scanned S s t) (m s) (p.runs s)
        (λ a t. Scanned-weaken h);
}

module _ {A B : Type 0} {X : Type 0} where
  pub Scans-bind :
      {R S : ℕ → ℕ → Type 0} {m : Fw A} {k : A → Fw B}
      → Scans X R m
      → ((a : A) → Scans X S (k a))
      → Scans X (Then R S) (m >>= k)
  Scans-bind {R} {S} {m} {k} p q = record {
    runs = λ s.
        and_then-Ends X (λ _ t. Scanned R s t) (λ _ t. Scanned (Then R S) s t) (m s) k (p.runs s)
          (λ a t h.
            Ends-weaken X (λ _ u. Scanned S t u) (λ _ u. Scanned (Then R S) s u) (k a t)
              ((q a).runs t) (λ b u. Scanned-trans h));
  }

  -- The Same for programs that leave `addend` as it was.
  pub Scans-then :
      {m : Fw A} {k : A → Fw B}
      → Scans X Same m
      → ((a : A) → Scans X Same (k a))
      → Scans X Same (m >>= k)
  Scans-then p q = Scans-weaken (λ a c (b, h, k) l. k (omega (arith, h l)) ∙ h l) (Scans-bind p q)

-- The variables alone.
pub Scans-modify :
    {X : Type 0} (R : ℕ → ℕ → Type 0) (a b h c x : Globals → ℕ)
    → ((g : Globals) → R g.addend (a g))
    → Scans X R (
        modify (λ g. record g {
          addend = a g;
          bus = b g;
          bridge_head = h g;
          bridge_count = c g;
          max_bus = x g;
        }))
Scans-modify R a b h c x r = record {
  runs = λ s. record {
    ios = [];
    addend = a s.globals;
    bus = b s.globals;
    head = h s.globals;
    count = c s.globals;
    max = x s.globals;
    config = tt;
    related = r s.globals;
    is = refl;
  };
}

pub accessed :
    (s : Machine) (es : List Io) → All IsConfig es → Scanned Same s (record s { io = es ++ s.io })
accessed s es h = record {
  ios = es;
  addend = s.globals.addend;
  bus = s.globals.bus;
  head = s.globals.bridge_head;
  count = s.globals.bridge_count;
  max = s.globals.max_bus;
  config = h;
  related = λ l. refl;
  is = refl;
}

pub Scans-pure : {A : Type 0} {X : Type 0} (a : A) → Scans X Same (pure a)
Scans-pure a = record { runs = λ s. accessed s [] tt }

pub Scans-gets : {A : Type 0} {X : Type 0} (v : Globals → A) → Scans X Same (gets v)
Scans-gets v = record { runs = λ s. accessed s [] tt }
