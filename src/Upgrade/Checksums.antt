-- ===== src/Upgrade/Checksums.antt =====
-- The checksum that is found is the only one the list has for the asset.
use cmdshape.Base.{
  Option-cases, text_eq, text_eq_iff, to_lower, true, false, List, [], ◌∷◌, none, some, Text, split,
  is_empty, if◌then◌else◌, ◌≡◌, refl, sym, ap, ◌∙◌, inl, inr, ◌↔◌, Bool-cases, arith,
}
use cmdshape.Upgrade.{
  is_checksum, sum_of_line, Checksum, found, missing, malformed, duplicate, checksum_loop,
  checksum_for_asset, accepts, is_verified,
}

-- The checksums the lines have for an asset.
abbrev pub sums : Text → List Text → List Text
sums asset_name [] = []
sums asset_name (line ∷ lines) =
    let rest = sums asset_name lines in
    elim (sum_of_line asset_name line) [ none ↦ rest | some sum ↦ sum ∷ rest ]

-- The loop over the checksums alone.
abbrev settle : Text → List Text → Checksum
settle held [] = if is_empty held then missing else found held
settle held (sum ∷ rest) =
    let taken = settle sum rest in
    if is_checksum sum then if is_empty held then taken else duplicate else malformed

checksum_loop-settle :
    (asset_name held : Text) (lines : List Text)
    → checksum_loop asset_name held lines ≡ settle held (sums asset_name lines)
unfolding checksum_loop
checksum_loop-settle asset_name held [] = refl
checksum_loop-settle asset_name held (line ∷ lines) =
    elim (Option-cases (sum_of_line asset_name line)) [
      | inl e ↦ rw (checksum_loop, sums, e) (checksum_loop-settle asset_name held lines)
      | inr (sum, e) ↦ rw (checksum_loop, sums, e, checksum_loop-settle asset_name sum lines) refl
    ]

is_checksum-nonempty : (s : Text) → is_checksum s ≡ true → is_empty s ≡ false
unfolding is_checksum
is_checksum-nonempty [] h = absurd (cc)
is_checksum-nonempty (c ∷ s) h = refl

settle-held :
    (held sum : Text) (xs : List Text)
    → is_empty held ≡ false
    → (settle held xs ≡ found sum) ↔ ((xs ≡ []) × (held ≡ sum))
settle-held held sum [] h = ground arith
settle-held held sum (x ∷ xs) h = ground arith

settle_lem :
    (sum : Text) (xs : List Text)
    → (settle [] xs ≡ found sum) ↔ ((xs ≡ sum ∷ []) × (is_checksum sum ≡ true))
settle_lem sum [] = ground arith
settle_lem sum (x ∷ xs) = elim (Bool-cases (is_checksum x)) [
  | inl on ↦
      let (there, back) = settle-held x sum xs (is_checksum-nonempty x on) in
      rw (on) (
        (λ h.
            let (e, same) = there h in
            (
              ap (λ t. t ∷ xs) same ∙ ap (λ (t : List Text). sum ∷ t) e,
              sym (ap is_checksum same) ∙ on,
            )),
        (λ (e, h). let both : (xs ≡ []) × (x ≡ sum) = ground arith in back both),
      )
  | inr off ↦
      rw (off) ((λ h. absurd (cc)), (λ (e, h). let same : x ≡ sum = ground arith in absurd (cc)))
]

-- A checksum is found for an asset exactly where it is the only one that the list has for it.
checksum_for_asset_iff :
    (contents asset_name sum : Text)
    → (checksum_for_asset contents asset_name ≡ found sum)
      ↔ ((sums asset_name (split 10 contents) ≡ sum ∷ []) × (is_checksum sum ≡ true))
unfolding checksum_for_asset
checksum_for_asset_iff contents asset_name sum =
    rw (checksum_loop-settle asset_name [] (split 10 contents))
      (settle_lem sum (sums asset_name (split 10 contents)))

accepts-found :
    (actual : Text) (c : Checksum)
    → accepts actual c ≡ true
    → (sum : Text) × ((c ≡ found sum) × (text_eq (to_lower sum) (to_lower actual) ≡ true))
unfolding accepts
accepts-found actual (found sum) h = (sum, (refl, h))
accepts-found actual missing h = absurd (cc)
accepts-found actual malformed h = absurd (cc)
accepts-found actual duplicate h = absurd (cc)

-- A downloaded asset passes exactly where the list of checksums has one single checksum for the
-- asset, this checksum consists of 64 hexadecimal digits, and it is the digest of the asset up to
-- upper and lower case.
pub is_verified_iff :
    (contents asset_name actual : Text)
    → (is_verified contents asset_name actual ≡ true) ↔ (
        (sum : Text) × ((sums asset_name (split 10 contents) ≡ sum ∷ [])
          × ((is_checksum sum ≡ true) × (to_lower sum ≡ to_lower actual))))
unfolding is_verified accepts
is_verified_iff contents asset_name actual = (
  (λ h.
      let (sum, (e, same)) = accepts-found actual (checksum_for_asset contents asset_name) h in
      let (only, good) = (checksum_for_asset_iff contents asset_name sum).0 e in
      (sum, (only, (good, (text_eq_iff (to_lower sum) (to_lower actual)).0 same)))),
  (λ (sum, (only, (good, same))).
      rw ((checksum_for_asset_iff contents asset_name sum).1 (only, good))
        ((text_eq_iff (to_lower sum) (to_lower actual)).1 same)),
)
