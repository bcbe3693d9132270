-- ===== src/Rewrite/Html.antt =====
-- `bytes.ReplaceAll` and `HTML` against what a replacement of every occurrence means.
use localhoist.Common.{
  ℕ, zero, suc, ◌-◌, ◌<◌, ◌≤◌, ◌⊎◌, ◌≡◌, ◌≢◌, refl, sym, ap, ◌∙◌, true, false, [], ◌∷◌, ◌++◌, Bytes,
  length, drop, equal, equal_iff, Bool-cases, inl, inr, arith, append-nil,
}
use localhoist.Common.Text.{has_prefix, contains, replace_from, replace_all, append-drop_of_prefix}
use localhoist.Rewrite.{html}

-- No occurrence begins within the front `a` of the text `a ++ tail`.
abbrev pub IsClear : Bytes → Bytes → Bytes → Type 0
IsClear old [] tail = Unit
IsClear old (c ∷ a) tail = (has_prefix (c ∷ (a ++ tail)) old ≡ false) × IsClear old a tail

-- `out` is `s` with every occurrence of `old`, read from the left, put as `new`.
pub data Replaces (old new : Bytes) : Bytes → Bytes → Type 0 where
  none_left : {s out : Bytes} → out ≡ s → IsClear old s [] → Replaces old new s out
  first :
      {s out : Bytes} (a b b' : Bytes)
      → s ≡ a ++ (old ++ b)
      → out ≡ a ++ (new ++ b')
      → IsClear old a (old ++ b)
      → Replaces old new b b'
      → Replaces old new s out

drop_pred :
    (old : Bytes) (c : ℕ) (s : Bytes)
    → old ≢ []
    → drop (length old - 1) s ≡ drop (length old) (c ∷ s)
drop_pred [] c s ne = absurd (ne refl)
drop_pred (d ∷ old) c s ne =
    let e : suc (length old) - 1 ≡ length old = omega arith in ap (λ n. drop n s) e

length-drop_le : (n : ℕ) (s : Bytes) → length (drop n s) ≤ length s
length-drop_le zero s = omega arith
length-drop_le (suc n) [] = omega arith
length-drop_le (suc n) (c ∷ s) = omega (arith, length-drop_le n s)

shorter :
    (old : Bytes) (c : ℕ) (s : Bytes) (fuel : ℕ)
    → old ≢ []
    → length (c ∷ s) < suc fuel
    → length (drop (length old) (c ∷ s)) < fuel
shorter [] c s fuel ne h = absurd (ne refl)
shorter (d ∷ old) c s fuel ne h = omega (arith, length-drop_le (length old) s)

module _ (old new : Bytes) where
  replace_from-drop :
      (k : ℕ) (s : Bytes) → replace_from k old new s ≡ replace_from zero old new (drop k s)
  unfolding replace_from
  replace_from-drop zero s = refl
  replace_from-drop (suc k) [] = refl
  replace_from-drop (suc k) (c ∷ s) = replace_from-drop k s

  -- A byte in front at which no occurrence begins.
  Replaces-cons :
      (c : ℕ) (s out : Bytes)
      → has_prefix (c ∷ s) old ≡ false
      → Replaces old new s out
      → Replaces old new (c ∷ s) (c ∷ out)
  Replaces-cons c s out h (none_left e clear) = none_left (ap (◌∷◌ c) e) (rw append-nil h, clear)
  Replaces-cons c s out h (first a b b' e f clear more) =
      first (c ∷ a) b b' (ap (◌∷◌ c) e) (ap (◌∷◌ c) f) (rw (← e) h, clear) more

  -- A byte at which an occurrence begins.
  replace_from_hit :
      (c : ℕ) (s : Bytes)
      → old ≢ []
      → has_prefix (c ∷ s) old ≡ true
      → replace_from zero old new (c ∷ s)
        ≡ new ++ replace_from zero old new (drop (length old) (c ∷ s))
  unfolding replace_from
  replace_from_hit c s ne h =
      rw (h, replace_from)
        (ap (λ r. new ++ r)
          (replace_from-drop (length old - 1) s
            ∙ ap (replace_from zero old new) (drop_pred old c s ne)))

  replace_from_miss :
      (c : ℕ) (s : Bytes)
      → has_prefix (c ∷ s) old ≡ false
      → replace_from zero old new (c ∷ s) ≡ c ∷ replace_from zero old new s
  unfolding replace_from
  replace_from_miss c s h = rw (h, replace_from) refl

  Replaces-replace_from :
      (fuel : ℕ) (s : Bytes)
      → old ≢ []
      → length s < fuel
      → Replaces old new s (replace_from zero old new s)
  Replaces-replace_from zero s ne h = elim h [ ]
  Replaces-replace_from (suc fuel) [] ne h = unfold replace_from in none_left refl tt
  Replaces-replace_from (suc fuel) (c ∷ s) ne h = elim (Bool-cases (has_prefix (c ∷ s) old)) [
    | inl here ↦
        let b = drop (length old) (c ∷ s) in
        rw (replace_from_hit c s ne here) (
          first [] b _ (sym (append-drop_of_prefix (c ∷ s) old here)) refl tt
            (Replaces-replace_from fuel b ne (shorter old c s fuel ne h)))
    | inr other ↦
        rw (replace_from_miss c s other)
          (Replaces-cons c s _ other (Replaces-replace_from fuel s ne (omega arith)))
  ]

  Replaces-replace_all : (s : Bytes) → old ≢ [] → Replaces old new s (replace_all s old new)
  unfolding replace_all
  Replaces-replace_all s ne = Replaces-replace_from (suc (length s)) s ne (omega arith)

IsClear-of_contains : (old s : Bytes) → contains s old ≡ false → IsClear old s []
unfolding contains
IsClear-of_contains old [] h = tt
IsClear-of_contains old (c ∷ s) h =
    rw append-nil (ground arith, IsClear-of_contains old s (ground arith))

pub html_parts :
    (body hot_origin public_origin : Bytes)
    → ((html body hot_origin public_origin).1 ≡ true
        → Replaces hot_origin public_origin body (html body hot_origin public_origin).0)
      × ((html body hot_origin public_origin).1 ≡ false
          → ((html body hot_origin public_origin).0 ≡ body)
            × ((hot_origin ≡ []) ⊎ (hot_origin ≡ public_origin) ⊎ IsClear hot_origin body []))
unfolding html
html_parts body hot_origin public_origin = elim (Bool-cases (equal hot_origin [])) [
  | inl empty ↦ rw empty ((λ e. cc), λ _. (refl, inl ((equal_iff hot_origin []).0 empty)))
  | inr given ↦ rw given (elim (Bool-cases (equal hot_origin public_origin)) [
    | inl same ↦
        rw same ((λ e. cc), λ _. (refl, inr (inl ((equal_iff hot_origin public_origin).0 same))))
    | inr other ↦ rw other (elim (Bool-cases (contains body hot_origin)) [
      | inl there ↦ rw there (
        (λ _.
            Replaces-replace_all hot_origin public_origin body
              (λ e. ground (arith, equal_iff hot_origin []))),
        λ e. cc,
      )
      | inr gone ↦
          rw gone ((λ e. cc), λ _. (refl, inr (inr (IsClear-of_contains hot_origin body gone))))
    ])
  ])
]

-- `HTML` replaces every occurrence of the dev server's origin by the public one, and nothing
-- else, and reports that it did; or it reports that it did not, the page is as it was, and the
-- origin is empty, or the public one, or nowhere in the page.
pub html-Replaces :
    (body hot_origin public_origin : Bytes)
    → (((html body hot_origin public_origin).1 ≡ true)
        × Replaces hot_origin public_origin body (html body hot_origin public_origin).0)
      ⊎ (((html body hot_origin public_origin).1 ≡ false)
          × ((html body hot_origin public_origin).0 ≡ body)
          × ((hot_origin ≡ []) ⊎ (hot_origin ≡ public_origin) ⊎ IsClear hot_origin body []))
html-Replaces body hot_origin public_origin =
    let (done, left) = html_parts body hot_origin public_origin in
    elim (Bool-cases (html body hot_origin public_origin).1) [
      | inl replaced ↦ inl (replaced, done replaced)
      | inr same ↦ let (kept, why) = left same in inr (same, kept, why)
    ]
