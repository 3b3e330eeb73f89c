-- ===== src/Upgrade/Archive.antt =====
-- The archive of an upgrade holds nothing but the program.
use cmdshape.Base.{
  ltb, Bool, true, false, not, ◌&&◌, ◌||◌, List, [], ◌∷◌, none, some, Text, text_eq, text_eq_iff,
  if◌then◌else◌, ◌≡◌, refl, sym, ap, ◌∙◌, inl, inr, ◌↔◌, Option-cases, arith,
}
use cmdshape.Upgrade.{
  max_upgrade_binary_bytes, ArchiveEntry, EntryError, unsafe_entry, irregular_entry,
  unexpected_entry, other_entry, oversized_entry, is_unsafe, validate_upgrade_archive_entry,
  extracted, invalid_entry, extract_loop, extract_binary_from_zip,
}

-- A regular file of this name, no symbolic link, and within the limit.
pub record IsBinary (name : Text) (f : ArchiveEntry) : Type 0 where
  pub named : f.name ≡ name
  pub regular : f.is_regular ≡ true
  pub direct : f.is_symlink ≡ false
  pub limited : ltb max_upgrade_binary_bytes f.uncompressed_size ≡ false

-- The tests of `validateUpgradeArchiveEntry` in their order.
tests-pass :
    (unsafe symlink regular dir named large : Bool)
    → (if unsafe
        then some unsafe_entry
        else if symlink || not regular && not dir
        then some irregular_entry
        else if not regular
        then some unexpected_entry
        else if not named
        then some other_entry
        else if large
        then some oversized_entry
        else none)
      ≡ none
    → (named ≡ true) × ((regular ≡ true) × ((symlink ≡ false) × (large ≡ false)))
tests-pass unsafe symlink regular dir named large h = ground arith

validate-IsBinary :
    (name : Text) (f : ArchiveEntry)
    → validate_upgrade_archive_entry f name ≡ none
    → IsBinary name f
unfolding validate_upgrade_archive_entry
validate-IsBinary name f h =
    let (named, (regular, (direct, limited))) =
      tests-pass (is_unsafe f.name) f.is_symlink f.is_regular f.is_dir (text_eq f.name name)
        (ltb max_upgrade_binary_bytes f.uncompressed_size) h in
    record {
      named = (text_eq_iff f.name name).0 named;
      regular = regular;
      direct = direct;
      limited = limited;
    }

IsBinary-validate :
    (name : Text) (f : ArchiveEntry)
    → is_unsafe name ≡ false
    → IsBinary name f
    → validate_upgrade_archive_entry f name ≡ none
unfolding validate_upgrade_archive_entry
IsBinary-validate name f safe b =
    let same = (text_eq_iff f.name name).1 b.named in
    let safe' = ap is_unsafe b.named ∙ safe in rw (safe', b.direct, b.regular, same, b.limited) refl

-- Behind a selected entry there is no other.
extract_loop-selected :
    (name : Text) (g f : ArchiveEntry) (files : List ArchiveEntry)
    → extract_loop name (some g) files ≡ extracted f
    → (files ≡ []) × (g ≡ f)
unfolding extract_loop
extract_loop-selected name g f [] h = ground arith
extract_loop-selected name g f (e ∷ files) h =
    elim (Option-cases (validate_upgrade_archive_entry e name)) [
      | inl valid ↦ absurd (cc)
      | inr (why, invalid) ↦ absurd (cc)
    ]

first-valid :
    (name : Text) (e : ArchiveEntry) (files : List ArchiveEntry)
    → validate_upgrade_archive_entry e name ≡ none
    → extract_loop name none (e ∷ files) ≡ extract_loop name (some e) files
unfolding extract_loop
first-valid name e files valid = rw (extract_loop, valid) refl

first-invalid :
    (name : Text) (e : ArchiveEntry) (files : List ArchiveEntry) (why : EntryError)
    → validate_upgrade_archive_entry e name ≡ some why
    → extract_loop name none (e ∷ files) ≡ invalid_entry why
unfolding extract_loop
first-invalid name e files why invalid = rw (extract_loop, invalid) refl

extract_loop-none :
    (name : Text) (f : ArchiveEntry) (files : List ArchiveEntry)
    → extract_loop name none files ≡ extracted f
    → (files ≡ f ∷ []) × (validate_upgrade_archive_entry f name ≡ none)
unfolding extract_loop
extract_loop-none name f [] h = absurd (cc)
extract_loop-none name f (e ∷ files) h =
    elim (Option-cases (validate_upgrade_archive_entry e name)) [
      | inl valid ↦
          let (no_more, same) =
            extract_loop-selected name e f files (sym (first-valid name e files valid) ∙ h) in
          (
            ap (λ (t : List ArchiveEntry). e ∷ t) no_more ∙ ap (λ (x : ArchiveEntry). x ∷ []) same,
            sym (ap (λ x. validate_upgrade_archive_entry x name) same) ∙ valid,
          )
      | inr (why, invalid) ↦ let stopped = first-invalid name e files why invalid in absurd (cc)
    ]

-- Where the name of the program is safe as the name of an entry, an entry is extracted from an archive
-- exactly where it is the only one and is a regular file of that name, no symbolic link, and within
-- the limit.
pub extract_binary_from_zip_iff :
    (files : List ArchiveEntry) (name : Text) (f : ArchiveEntry)
    → is_unsafe name ≡ false
    → (extract_binary_from_zip files name ≡ extracted f) ↔ ((files ≡ f ∷ []) × IsBinary name f)
unfolding extract_binary_from_zip extract_loop
extract_binary_from_zip_iff files name f safe = (
  (λ h.
      let (only, valid) = extract_loop-none name f files h in
      (only, validate-IsBinary name f valid)),
  (λ (only, b).
      ap (λ fs. extract_loop name none fs) only
      ∙ rw (extract_loop, IsBinary-validate name f safe b) refl),
)
