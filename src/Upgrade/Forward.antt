-- ===== src/Upgrade/Forward.antt =====
-- An upgrade goes to the version asked for and never back.
use cmdshape.Base.{
  false, [], ◌∷◌, Option, none, some, Text, is_empty, if◌then◌else◌, ◌≡◌, ◌↔◌, refl, sym, ap, ◌∙◌,
  subst, Bool-cases, Option-cases, inl, inr, arith,
}
use mathlib.Core.Option.{some-injective}
use cmdshape.Version.{Semantic, parse, less, format}
use cmdshape.Version.Order.{IsBefore, compare_lem}
use cmdshape.Version.RoundTrip.{IsVersion, parse-format, format-parse, parse-IsVersion}
use cmdshape.Upgrade.{
  Target, resolved, unresolved_latest, invalid_release, downgrade, resolve_tag,
  resolve_upgrade_version, reject_downgrade,
}

reject_downgrade-format :
    (current target : Semantic)
    → IsVersion current
    → reject_downgrade (format current) target ≡ less target current
unfolding reject_downgrade
reject_downgrade-format current target i = rw (reject_downgrade, parse-format current i) refl

-- The target for a release version, where the running version is known.
abbrev target_of : Semantic → Option Semantic → Target
target_of current none = invalid_release
target_of current (some version) =
    if less version current then downgrade else resolved (format version) version

resolve_tag_lem :
    (current : Semantic) (tag : Text)
    → IsVersion current
    → resolve_tag (format current) tag ≡ target_of current (parse tag)
unfolding resolve_tag
resolve_tag_lem current tag i = elim (Option-cases (parse tag)) [
  | inl e ↦ rw (resolve_tag, e) refl
  | inr (version, e) ↦ rw (resolve_tag, e, reject_downgrade-format current version i) refl
]

-- The version goes up or stays.
abbrev pub IsForward : Semantic → Semantic → Type 0
IsForward current version = ¬ IsBefore version current

less-IsForward :
    (current version : Semantic) → (less version current ≡ false) ↔ IsForward current version
less-IsForward current version =
    let order = (compare_lem version current).0 in
    (
      λ e before. let bad = order.1 before in absurd (cc),
      λ forward. elim (Bool-cases (less version current)) [
        | inl e ↦ absurd (forward (order.0 e))
        | inr e ↦ e
      ],
    )

resolved-injective : (s t : Text) (v w : Semantic) → resolved s v ≡ resolved t w → (s ≡ t) × (v ≡ w)
resolved-injective s t v w e = ground arith

target_of-resolved :
    (current version : Semantic) (tag from : Text)
    → (target_of current (parse from) ≡ resolved tag version)
      ↔ ((from ≡ tag) × (tag ≡ format version) × IsVersion version × IsForward current version)
target_of-resolved current version tag from = (
  λ h. elim (Option-cases (parse from)) [
    | inl e ↦ let bad = rw e at h in absurd (cc)
    | inr (w, e) ↦ elim (Bool-cases (less w current)) [
      | inl back ↦ let bad = rw (e, back) at h in absurd (cc)
      | inr on ↦
          let (named, same) = resolved-injective (format w) tag w version (rw (e, on) at h) in
          (
            sym (format-parse from w e) ∙ named,
            sym named ∙ ap format same,
            subst IsVersion same (parse-IsVersion from w e),
            subst (IsForward current) same ((less-IsForward current w).0 on),
          )
    ]
  ],
  λ (e, named, i, forward).
      let read = ap parse (e ∙ named) ∙ parse-format version i in
      rw (read, (less-IsForward current version).1 forward)
        (ap (λ t. resolved t version) (sym named)),
)

target_of-downgrade :
    (current : Semantic) (from : Text)
    → (target_of current (parse from) ≡ downgrade) ↔ (
        (version : Semantic) × (from ≡ format version)
        × IsVersion version
        × IsBefore version current)
target_of-downgrade current from = (
  λ h. elim (Option-cases (parse from)) [
    | inl e ↦ let bad = rw e at h in absurd (cc)
    | inr (w, e) ↦ elim (Bool-cases (less w current)) [
      | inl back ↦ (
        w,
        sym (format-parse from w e),
        parse-IsVersion from w e,
        (compare_lem w current).0.0 back,
      )
      | inr on ↦ let bad = rw (e, on) at h in absurd (cc)
    ]
  ],
  λ (version, e, i, before).
      let read = ap parse e ∙ parse-format version i in
      rw (read, (compare_lem version current).0.1 before) refl,
)

-- The requested tag, or the latest one of the service where none is requested.
abbrev pub chosen : Option Text → Text → Option Text
chosen latest requested = if is_empty requested then latest else some requested

abbrev target_for : Semantic → Option Text → Target
target_for current none = unresolved_latest
target_for current (some tag) = target_of current (parse tag)

resolve_upgrade_version-chosen :
    (current : Semantic) (latest : Option Text) (requested : Text)
    → IsVersion current
    → resolve_upgrade_version (format current) latest requested
      ≡ target_for current (chosen latest requested)
unfolding resolve_upgrade_version
resolve_upgrade_version-chosen current none [] i = refl
resolve_upgrade_version-chosen current (some tag) [] i = resolve_tag_lem current tag i
resolve_upgrade_version-chosen current latest (c ∷ s) i = resolve_tag_lem current (c ∷ s) i

target_for-resolved :
    (current version : Semantic) (tag : Text) (from : Option Text)
    → (target_for current from ≡ resolved tag version)
      ↔ ((from ≡ some tag) × (tag ≡ format version) × IsVersion version × IsForward current version)
target_for-resolved current version tag none =
    (λ h. absurd (cc), λ (e, named, is, forward). absurd (cc))
target_for-resolved current version tag (some from) =
    let (there, back) = target_of-resolved current version tag from in
    (
      λ h. let (e, named, is, forward) = there h in (ap some e, named, is, forward),
      λ (e, named, is, forward). back (some-injective from tag e, named, is, forward),
    )

target_for-downgrade :
    (current : Semantic) (from : Option Text)
    → (target_for current from ≡ downgrade) ↔ (
        (older : Semantic) × (from ≡ some (format older))
        × IsVersion older
        × IsBefore older current)
target_for-downgrade current none = (λ h. absurd (cc), λ (older, e, is, before). absurd (cc))
target_for-downgrade current (some from) =
    let (there, back) = target_of-downgrade current from in
    (
      λ h. let (older, e, is, before) = there h in (older, ap some e, is, before),
      λ (older, e, is, before). back (older, some-injective from (format older) e, is, before),
    )

-- Where the running program is of a version of three uint64 components, an upgrade resolves to a tag
-- and a version exactly where the tag is the chosen one, the requested one or the latest one of the
-- service where none is requested, it is the text of the version, and the version is not
-- lexicographically before the running one; and it is refused as a downgrade exactly where the chosen
-- tag is the text of a version that is before the running one.
pub resolve_upgrade_version_iff :
    (current version : Semantic) (requested tag : Text) (latest : Option Text)
    → IsVersion current
    → ((resolve_upgrade_version (format current) latest requested ≡ resolved tag version) ↔ (
        (chosen latest requested ≡ some tag)
        × (tag ≡ format version)
        × IsVersion version
        × IsForward current version))
      × ((resolve_upgrade_version (format current) latest requested ≡ downgrade) ↔ (
          (older : Semantic) × (chosen latest requested ≡ some (format older))
          × IsVersion older
          × IsBefore older current))
resolve_upgrade_version_iff current version requested tag latest i =
    rw (resolve_upgrade_version-chosen current latest requested i) (
      target_for-resolved current version tag (chosen latest requested),
      target_for-downgrade current (chosen latest requested),
    )
