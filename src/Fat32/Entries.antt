-- ===== src/Fat32/Entries.antt =====
-- src/fat32.rs: what the loops over the directory make of an entry, and the test for its name, in terms
-- of the entry's bytes.
use mini_visor_real_device.Base.{
  ℕ, ◌+◌, ◌*◌, ◌/◌, ◌%◌, ◌^◌, ◌<◌, ◌≤◌, ◌≡◌, ◌≢◌, refl, arith, ◌⊎◌, inl, inr, Bool, true, false,
  some, List, [], ◌∷◌, map, ◌==◌, ◌!=◌, ==_iff, ==_self, Bool-cases, Option-cases, bit_and,
  bit_and_mask, bit_and_shifted, subst,
}
use mini_visor_real_device.Fat32.{
  DirectoryEntry, skip, last, file, listed, is_named, first_of, lowercase, eq_bytes, get_file_name,
}

-- The attributes of a part of a long name, and the directory bit.
abbrev pub IsLongName : DirectoryEntry → Type 0
IsLongName e = e.attribute % 2 ^ 6 ≡ 15

abbrev pub IsDirectory : DirectoryEntry → Type 0
IsDirectory e = e.attribute / 2 ^ 4 % 2 ≡ 1

-- An entry of a file: neither of both, and its name's first byte says neither that the directory
-- ends there nor that the entry was deleted.
abbrev pub IsFile : DirectoryEntry → Type 0
IsFile e =
    (e.attribute % 2 ^ 6 ≢ 15)
    × (e.attribute / 2 ^ 4 % 2 ≢ 1)
    × (first_of e.name ≢ 0)
    × (first_of e.name ≢ 0xE5)

abbrev pub EndsDirectory : DirectoryEntry → Type 0
EndsDirectory e = (e.attribute % 2 ^ 6 ≢ 15) × (e.attribute / 2 ^ 4 % 2 ≢ 1) × (first_of e.name ≡ 0)

abbrev pub IsSkipped : DirectoryEntry → Type 0
IsSkipped e = IsLongName e ⊎ (IsDirectory e ⊎ (first_of e.name ≡ 0xE5))

-- `d` is the byte `c`, in lower case where that is a capital of ASCII.
abbrev pub IsLowered : (c d : ℕ) → Type 0
IsLowered c d = ((0x41 ≤ c) × (c ≤ 0x5A) × (d ≡ c + 0x20)) ⊎ (((c < 0x41) ⊎ (0x5A < c)) × (d ≡ c))

abbrev pub AreLowered : List ℕ → List ℕ → Type 0
AreLowered [] [] = Unit
AreLowered [] (d ∷ ds) = ⊥
AreLowered (c ∷ cs) [] = ⊥
AreLowered (c ∷ cs) (d ∷ ds) = IsLowered c d × AreLowered cs ds

-- The entry has a name, and the target is that name, as it stands or in lower case.
abbrev pub HasName : (List ℕ → Bool) → (target_name : List ℕ) → DirectoryEntry → Type 0
HasName is_utf8 target_name e =
    (name : List ℕ) × (get_file_name is_utf8 e ≡ some name)
    × ((name ≡ target_name) ⊎ AreLowered name target_name)

-- What the tests of the code make of an entry.
pub listed_cases :
    (e : DirectoryEntry)
    → ((listed e ≡ skip) × IsSkipped e)
      ⊎ (((listed e ≡ last) × EndsDirectory e) ⊎ ((listed e ≡ file) × IsFile e))
unfolding listed
listed_cases e =
    let m : bit_and e.attribute 0x3F ≡ e.attribute % 2 ^ 6 = bit_and_mask 6 e.attribute in
    let s : bit_and e.attribute 0x10 ≡ bit_and (e.attribute / 2 ^ 4) 1 * 2 ^ 4 =
      bit_and_shifted 4 e.attribute 1 in
    let b : bit_and (e.attribute / 2 ^ 4) 1 ≡ e.attribute / 2 ^ 4 % 2 =
      bit_and_mask 1 (e.attribute / 2 ^ 4) in
    elim (Bool-cases (bit_and e.attribute 0x3F == 0x0F)) [
      | inl t ↦ inl (rw (t, listed) refl, inl (ground (arith, t, m)))
      | inr t ↦ elim (Bool-cases (bit_and e.attribute 0x10 != 0)) [
        | inl u ↦ inl (rw (t, u, listed) refl, inr (inl (ground (arith, u, s, b))))
        | inr u ↦
            let long : e.attribute % 2 ^ 6 ≢ 15 = λ h. ground (arith, t, m, h) in
            let dir : e.attribute / 2 ^ 4 % 2 ≢ 1 = λ h. ground (arith, u, s, b, h) in
            elim (Bool-cases (first_of e.name == 0)) [
              | inl z ↦ inr (inl (rw (t, u, z, listed) refl, (long, dir, (==_iff _ _).0 z)))
              | inr z ↦ elim (Bool-cases (first_of e.name == 0xE5)) [
                | inl d ↦ inl (rw (t, u, z, d, listed) refl, inr (inr ((==_iff _ _).0 d)))
                | inr d ↦ inr (
                    inr (
                      rw (t, u, z, d, listed) refl,
                      (long, dir, (λ h. ground (arith, z, h)), (λ h. ground (arith, d, h))),
                    ))
              ]
            ]
      ]
    ]

eq_bytes-≡ : (a b : List ℕ) → eq_bytes a b ≡ true → a ≡ b
unfolding eq_bytes
eq_bytes-≡ [] [] h = refl
eq_bytes-≡ [] (b ∷ bs) h = cc
eq_bytes-≡ (a ∷ as') [] h = cc
eq_bytes-≡ (a ∷ as') (b ∷ bs) h = elim (Bool-cases (a == b)) [
  | inl t ↦
      let e : a ≡ b = (==_iff a b).0 t in
      let es : as' ≡ bs = eq_bytes-≡ as' bs (rw (t, eq_bytes) at h) in rw (e, es)
  | inr t ↦ let g = rw (t, eq_bytes) at h in cc
]

eq_bytes_self : (a : List ℕ) → eq_bytes a a ≡ true
unfolding eq_bytes
eq_bytes_self [] = refl
eq_bytes_self (a ∷ as') = rw (==_self a, eq_bytes_self as')

lowercase-IsLowered : (c : ℕ) → IsLowered c (lowercase c)
unfolding lowercase
lowercase-IsLowered c = ground arith

IsLowered-lowercase : (c d : ℕ) → IsLowered c d → lowercase c ≡ d
unfolding lowercase
IsLowered-lowercase c d h = ground arith

AreLowered-map : (a b : List ℕ) → map lowercase a ≡ b → AreLowered a b
AreLowered-map [] [] h = tt
AreLowered-map [] (b ∷ bs) h = cc
AreLowered-map (a ∷ as') [] h = cc
AreLowered-map (a ∷ as') (b ∷ bs) h =
    let e : lowercase a ≡ b = cc in
    let es : map lowercase as' ≡ bs = cc in
    (subst (λ x. IsLowered a x) e (lowercase-IsLowered a), AreLowered-map as' bs es)

map-AreLowered : (a b : List ℕ) → AreLowered a b → map lowercase a ≡ b
map-AreLowered [] [] h = refl
map-AreLowered [] (b ∷ bs) h = elim h [ ]
map-AreLowered (a ∷ as') [] h = elim h [ ]
map-AreLowered (a ∷ as') (b ∷ bs) (h, hs) =
    let e = IsLowered-lowercase a b h in let es = map-AreLowered as' bs hs in rw (e, es)

is_named-HasName :
    (is_utf8 : List ℕ → Bool) (target : List ℕ) (e : DirectoryEntry)
    → HasName is_utf8 target e
    → is_named is_utf8 target e ≡ true
unfolding is_named
is_named-HasName is_utf8 target e (name, n, inl same) =
    let t : eq_bytes name target ≡ true =
      subst (λ x. eq_bytes name x ≡ true) same (eq_bytes_self name) in
    rw (n, t, is_named) refl
is_named-HasName is_utf8 target e (name, n, inr low) =
    let u : eq_bytes (map lowercase name) target ≡ true =
      subst (λ x. eq_bytes (map lowercase name) x ≡ true) (map-AreLowered name target low)
        (eq_bytes_self (map lowercase name)) in
    elim (Bool-cases (eq_bytes name target)) [
      | inl t ↦ rw (n, t, is_named) refl
      | inr t ↦ rw (n, t, u, is_named) refl
    ]

-- The test for the name answers false only where the entry has another name.
is_named_other :
    (is_utf8 : List ℕ → Bool) (target : List ℕ) (e : DirectoryEntry)
    → is_named is_utf8 target e ≡ false
    → HasName is_utf8 target e
    → ⊥
is_named_other is_utf8 target e wrong has = let yes = is_named-HasName is_utf8 target e has in cc

pub is_named_cases :
    (is_utf8 : List ℕ → Bool) (target : List ℕ) (e : DirectoryEntry)
    → ((is_named is_utf8 target e ≡ true) × HasName is_utf8 target e)
      ⊎ ((is_named is_utf8 target e ≡ false) × (HasName is_utf8 target e → ⊥))
unfolding is_named
is_named_cases is_utf8 target e = elim (Option-cases (get_file_name is_utf8 e)) [
  | inl n ↦ inr (rw (n, is_named) refl, is_named_other is_utf8 target e (rw (n, is_named) refl))
  | inr (name, n) ↦ elim (Bool-cases (eq_bytes name target)) [
    | inl t ↦ inl (rw (n, t, is_named) refl, (name, n, inl (eq_bytes-≡ name target t)))
    | inr t ↦ elim (Bool-cases (eq_bytes (map lowercase name) target)) [
      | inl u ↦ inl (
        rw (n, t, u, is_named) refl,
        (name, n, inr (AreLowered-map name target (eq_bytes-≡ (map lowercase name) target u))),
      )
      | inr u ↦ inr (
        rw (n, t, u, is_named) refl,
        is_named_other is_utf8 target e (rw (n, t, u, is_named) refl),
      )
    ]
  ]
]
