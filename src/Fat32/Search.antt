-- ===== src/Fat32/Search.antt =====
-- src/fat32.rs: what search_file finds, and when it finds nothing.
use mini_visor_real_device.Base.{
  ℕ, ◌*◌, ◌/◌, ◌≡◌, refl, ap, ◌⊎◌, inl, inr, Bool, Option, none, some, List, [], ◌∷◌, ◌++◌,
}
use mini_visor_real_device.Fat32.{
  DirectoryEntry, FileInfo, info_of, search_entries, search_file, load_entries, Fat32,
}
use mini_visor_real_device.Fat32.Entries.{
  IsFile, EndsDirectory, IsSkipped, HasName, listed_cases, is_named_cases,
}

-- The entry is skipped, or a file of another name.
abbrev pub IsPassed : (List ℕ → Bool) → (target_name : List ℕ) → DirectoryEntry → Type 0
IsPassed is_utf8 target_name e = IsSkipped e ⊎ (IsFile e × (HasName is_utf8 target_name e → ⊥))

abbrev pub ArePassed : (List ℕ → Bool) → (target_name : List ℕ) → List DirectoryEntry → Type 0
ArePassed is_utf8 target_name [] = Unit
ArePassed is_utf8 target_name (e ∷ es) =
    IsPassed is_utf8 target_name e × ArePassed is_utf8 target_name es

-- Nothing of the directory is left: no entry, or one that ends it.
abbrev pub IsEnd : List DirectoryEntry → Type 0
IsEnd [] = Unit
IsEnd (e ∷ es) = EndsDirectory e

-- An answer is the first file of that name before the end of the directory, and none says that
-- there is no such file before the end.
abbrev pub IsSearched :
    (List ℕ → Bool) → (target_name : List ℕ) → List DirectoryEntry → Option FileInfo → Type 0
IsSearched is_utf8 target_name es none =
    (before : List DirectoryEntry) × (rest : List DirectoryEntry) × (es ≡ before ++ rest)
    × ArePassed is_utf8 target_name before
    × IsEnd rest
IsSearched is_utf8 target_name es (some info) =
    (before : List DirectoryEntry) × (e : DirectoryEntry) × (behind : List DirectoryEntry) × (es
      ≡ before ++ e ∷ behind)
    × ArePassed is_utf8 target_name before
    × IsFile e
    × HasName is_utf8 target_name e
    × (info ≡ info_of e)

-- One entry more in front.
IsSearched-cons :
    (is_utf8 : List ℕ → Bool) (name : List ℕ) (e : DirectoryEntry) (es : List DirectoryEntry)
    (answer : Option FileInfo)
    → IsPassed is_utf8 name e
    → IsSearched is_utf8 name es answer
    → IsSearched is_utf8 name (e ∷ es) answer
IsSearched-cons is_utf8 name e es none p (before, rest, eq, ps, end) =
    (e ∷ before, rest, ap (λ l. e ∷ l) eq, (p, ps), end)
IsSearched-cons is_utf8 name e es (some info) p (before, f, behind, eq, ps, t, n, i) =
    (e ∷ before, f, behind, ap (λ l. e ∷ l) eq, (p, ps), t, n, i)

search_entries-IsSearched :
    (is_utf8 : List ℕ → Bool) (name : List ℕ) (es : List DirectoryEntry)
    → IsSearched is_utf8 name es (search_entries is_utf8 name es)
unfolding search_entries
search_entries-IsSearched is_utf8 name [] = ([], [], refl, tt, tt)
search_entries-IsSearched is_utf8 name (e ∷ es) =
    let rest = search_entries-IsSearched is_utf8 name es in
    elim (listed_cases e) [
      | inl (t, s) ↦ rw (t, search_entries) (IsSearched-cons is_utf8 name e es _ (inl s) rest)
      | inr (inl (t, s)) ↦ rw (t, search_entries) ([], e ∷ es, refl, tt, s)
      | inr (inr (t, s)) ↦ elim (is_named_cases is_utf8 name e) [
        | inl (n, has) ↦ rw (t, n, search_entries) ([], e, es, refl, tt, s, has, refl)
        | inr (n, other) ↦
            rw (t, n, search_entries) (IsSearched-cons is_utf8 name e es _ (inr (s, other)) rest)
      ]
    ]

-- What search_file finds is the first file of the root directory whose name, as get_file_name gives
-- it, is the one asked for, as it stands or in lower case: every entry before it is a part of a long
-- name, a directory, deleted or a file of another name. Where it finds nothing, all entries up to the
-- end of the directory are such: the end is the first entry with 0 as its name's first byte that is
-- neither a part of a long name nor a directory, or the end of the cluster.
pub search_file-IsSearched :
    (is_utf8 : List ℕ → Bool) (v : Fat32) (byte : ℕ → ℕ) (name : List ℕ)
    → IsSearched is_utf8 name
        (load_entries byte (v.bytes_per_sector * v.sectors_per_cluster / 32) v.root_directory_list)
        (search_file is_utf8 v byte name)
unfolding search_file
search_file-IsSearched is_utf8 v byte name =
    search_entries-IsSearched is_utf8 name
      (load_entries byte (v.bytes_per_sector * v.sectors_per_cluster / 32) v.root_directory_list)
