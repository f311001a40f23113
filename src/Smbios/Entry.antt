-- ===== src/Smbios/Entry.antt =====
-- The fields of the SMBIOS entry point that lead to the structures.
use qboot.Base.{
  refl, ℕ, ◌+◌, ◌-◌, ◌<◌, ◌≤◌, ◌≡◌, ◌^◌, ◌∙◌, arith, u16, u32, sub32, sub8, ltb, inl, inr, if_ind,
  ◌≢◌,
}
use qboot.Memory.{IsBytes, Memory, stl_p, stw_p, st8, lduw_p, ldl_p}
use qboot.Memory.Frame.{
  stw_p-IsBytes, stl_p-IsBytes, Outside, stw_p-Outside, stl_p-Outside, st8-ne, lduw_p-agree,
  ldl_p-agree, lduw_p-stw_p, ldl_p-stl_p,
}
use qboot.CString.{csum8}
use qboot.Smbios.{t0_len, count_type_0, sum_entry_point}

-- The entry point at `ep` leads to `count` structures in the `length` bytes at `address`.
pub record IsEntry (ep address length count : ℕ) (m : Memory) : Type 0 where
  pub structure_table_address : ldl_p m (ep + 24) ≡ address
  pub structure_table_length : lduw_p m (ep + 22) ≡ length
  pub number_of_structures : lduw_p m (ep + 28) ≡ count

pub IsEntry-agree :
    (ep address length count : ℕ) (m g : Memory)
    → ((a : ℕ) → ep + 22 ≤ a → a < ep + 30 → g a ≡ m a)
    → IsEntry ep address length count m
    → IsEntry ep address length count g
IsEntry-agree ep address length count m g h e = record {
  structure_table_address =
      ldl_p-agree m g (ep + 24) (λ a k l. h a (omega arith) (omega arith))
      ∙ e.structure_table_address;
  structure_table_length =
      lduw_p-agree m g (ep + 22) (λ a k l. h a (omega arith) (omega arith))
      ∙ e.structure_table_length;
  number_of_structures =
      lduw_p-agree m g (ep + 28) (λ a k l. h a (omega arith) (omega arith))
      ∙ e.number_of_structures;
}

-- What extract_smbios makes of the entry point before it looks at the structures.
abbrev pub pointed : (ep q n : ℕ) → Memory → Memory
pointed ep q n m = stw_p (stl_p m (ep + 24) (u32 q)) (ep + 22) n

pub pointed-Outside : (ep q n a : ℕ) (m : Memory) → Outside (ep + 22) 6 a → pointed ep q n m a ≡ m a
pointed-Outside ep q n a m o =
    stw_p-Outside (stl_p m (ep + 24) (u32 q)) (ep + 22) n a (ground arith)
    ∙ stl_p-Outside m (ep + 24) (u32 q) a (ground arith)

pub pointed-IsEntry :
    (ep q n : ℕ) (m : Memory)
    → q < 2 ^ 32
    → n < 2 ^ 16
    → IsEntry ep q n (lduw_p m (ep + 28)) (pointed ep q n m)
pointed-IsEntry ep q n m hq hn =
    let m1 = stl_p m (ep + 24) (u32 q) in
    let g = pointed ep q n m in
    record {
      structure_table_address =
          ldl_p-agree m1 g (ep + 24) (λ a k l. stw_p-Outside m1 (ep + 22) n a (inr (omega arith)))
          ∙ ldl_p-stl_p m (ep + 24) (u32 q) (omega arith)
          ∙ omega arith;
      structure_table_length = lduw_p-stw_p m1 (ep + 22) n hn;
      number_of_structures =
          lduw_p-agree m g (ep + 28) (λ a k l. pointed-Outside ep q n a m (inr (omega arith)));
    }

-- Only the largest size and these fields change.
pub count_type_0-Outside :
    (ep a : ℕ) (m : Memory)
    → Outside (ep + 8) 2 a
    → Outside (ep + 22) 8 a
    → count_type_0 ep m a ≡ m a
unfolding count_type_0
count_type_0-Outside ep a m o p =
    let m1 = stw_p m (ep + 28) (u16 (lduw_p m (ep + 28) + 1)) in
    let m2 = stl_p m1 (ep + 24) (sub32 (ldl_p m1 (ep + 24)) t0_len) in
    let v = u16 (lduw_p m2 (ep + 22) + t0_len) in
    let m3 = stw_p m2 (ep + 22) v in
    if_ind (λ (g : Memory). g a ≡ m3 a) (ltb (lduw_p m3 (ep + 8)) t0_len)
      (λ _. stw_p-Outside m3 (ep + 8) t0_len a o) (λ _. refl)
    ∙ stw_p-Outside m2 (ep + 22) v a (ground arith)
    ∙ stl_p-Outside m1 (ep + 24) (sub32 (ldl_p m1 (ep + 24)) t0_len) a (ground arith)
    ∙ stw_p-Outside m (ep + 28) (u16 (lduw_p m (ep + 28) + 1)) a (ground arith)

pub count_type_0-IsBytes : (ep : ℕ) (m : Memory) → IsBytes m → IsBytes (count_type_0 ep m)
unfolding count_type_0
count_type_0-IsBytes ep m b =
    let v1 = u16 (lduw_p m (ep + 28) + 1) in
    let m1 = stw_p m (ep + 28) v1 in
    let v2 = sub32 (ldl_p m1 (ep + 24)) t0_len in
    let m2 = stl_p m1 (ep + 24) v2 in
    let v3 = u16 (lduw_p m2 (ep + 22) + t0_len) in
    let m3 = stw_p m2 (ep + 22) v3 in
    let b3 =
      stw_p-IsBytes m2 (ep + 22) v3
        (stl_p-IsBytes m1 (ep + 24) v2 (stw_p-IsBytes m (ep + 28) v1 b)) in
    if_ind IsBytes (ltb (lduw_p m3 (ep + 8)) t0_len) (λ _. stw_p-IsBytes m3 (ep + 8) t0_len b3)
      (λ _. b3)

pub count_type_0-IsEntry :
    (ep q n count : ℕ) (m : Memory)
    → t0_len ≤ q
    → q < 2 ^ 32
    → n + t0_len < 2 ^ 16
    → count + 1 < 2 ^ 16
    → IsEntry ep q n count m
    → IsEntry ep (q - t0_len) (n + t0_len) (count + 1) (count_type_0 ep m)
unfolding count_type_0
count_type_0-IsEntry ep q n count m room hq hn hc e =
    let v1 = u16 (lduw_p m (ep + 28) + 1) in
    let m1 = stw_p m (ep + 28) v1 in
    let v2 = sub32 (ldl_p m1 (ep + 24)) t0_len in
    let m2 = stl_p m1 (ep + 24) v2 in
    let v3 = u16 (lduw_p m2 (ep + 22) + t0_len) in
    let m3 = stw_p m2 (ep + 22) v3 in
    let low1 = λ (a : ℕ) (o : a < ep + 28). stw_p-Outside m (ep + 28) v1 a (inl o) in
    let low2 =
      λ (a : ℕ) (o : a < ep + 24). stl_p-Outside m1 (ep + 24) v2 a (inl o) ∙ low1 a (omega arith) in
    let high3 = λ (a : ℕ) (o : ep + 24 ≤ a). stw_p-Outside m2 (ep + 22) v3 a (inr (omega arith)) in
    let address : ldl_p m1 (ep + 24) ≡ q =
      ldl_p-agree m m1 (ep + 24) (λ a k l. low1 a (omega arith)) ∙ e.structure_table_address in
    let size : lduw_p m2 (ep + 22) ≡ n =
      lduw_p-agree m m2 (ep + 22) (λ a k l. low2 a (omega arith)) ∙ e.structure_table_length in
    let counted : IsEntry ep (q - t0_len) (n + t0_len) (count + 1) m3 = record {
      structure_table_address =
          ldl_p-agree m2 m3 (ep + 24) (λ a k l. high3 a k)
          ∙ ldl_p-stl_p m1 (ep + 24) v2 (omega arith)
          ∙ omega (arith, address);
      structure_table_length = lduw_p-stw_p m2 (ep + 22) v3 (omega arith) ∙ omega (arith, size);
      number_of_structures =
          lduw_p-agree m1 m3 (ep + 28)
            (λ a k l. high3 a (omega arith) ∙ stl_p-Outside m1 (ep + 24) v2 a (inr (omega arith)))
          ∙ lduw_p-stw_p m (ep + 28) v1 (omega arith)
          ∙ omega (arith, e.number_of_structures);
    } in
    if_ind (IsEntry ep (q - t0_len) (n + t0_len) (count + 1)) (ltb (lduw_p m3 (ep + 8)) t0_len)
      (λ _.
        IsEntry-agree ep (q - t0_len) (n + t0_len) (count + 1) m3 (stw_p m3 (ep + 8) t0_len)
          (λ a k l. stw_p-Outside m3 (ep + 8) t0_len a (inr (omega arith))) counted)
      (λ _. counted)

-- The checksums stand at two bytes of the entry point.
pub sum_entry_point-ne :
    (ep a : ℕ) (m : Memory) → ep + 4 ≢ a → ep + 21 ≢ a → sum_entry_point ep m a ≡ m a
unfolding sum_entry_point
sum_entry_point-ne ep a m h k =
    let m1 = st8 m (ep + 4) (sub8 (m (ep + 4)) (csum8 m ep 16)) in
    st8-ne m1 (ep + 21) (sub8 (m1 (ep + 21)) (csum8 m1 (ep + 16) (sub32 (m1 (ep + 5)) 16))) a k
    ∙ st8-ne m (ep + 4) (sub8 (m (ep + 4)) (csum8 m ep 16)) a h
