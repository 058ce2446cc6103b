-- ===== src/Scan/Occurrences.antt =====
-- `containsHits` finds every occurrence of the keyword, from the left and without overlaps, if
-- lower case keeps the lengths of the field and of the keyword.
use article_sentinel.Base.{
  ℕ, zero, suc, ◌+◌, ◌-◌, ◌≤◌, ◌<◌, true, false, ◌≡◌, refl, sym, ◌∙◌, ap, arith, some, List, [],
  ◌∷◌, ◌++◌, ltb, ◌==◌, if◌then◌else◌, length, drop, length-drop, Bool-cases, Option-cases, inl,
  inr, le→leb,
}
use article_sentinel.Text.{Text, codes, is_empty, trim_space, Unicode, to_lower, slice}
use article_sentinel.Text.Find.{has_prefix, index}
use article_sentinel.Text.FindLaws.{
  drop-drop, index-length, index-has_prefix, index-first, index-none,
}
use article_sentinel.Scan.{
  KeywordRule, Hit, KeywordScanner, done, panicked, checked_slice, snippet_start, snippet_end,
  build_snippet, hit_of, build_hit,
}
use article_sentinel.Scan.Scanner.{contains_loop, contains_hits}

pub checked_slice-done :
    (s : Text) (i j : ℕ) → i ≤ j → j ≤ length s → checked_slice s i j ≡ done (slice s i j)
unfolding checked_slice
checked_slice-done s i j h k = ground arith

-- A snippet around a range of the text is always within the text.
pub build_snippet-done :
    (text : Text) (start end context : ℕ)
    → start ≤ end
    → end ≤ length text
    → (snippet : Text) × (build_snippet text start end context ≡ done snippet)
unfolding build_snippet
build_snippet-done text start end context h k = elim (Bool-cases (is_empty text)) [
  | inl blank ↦ ([], rw (blank, build_snippet))
  | inr nonempty ↦
      let i = snippet_start start window in
      let j = snippet_end text end window in
      let middle : checked_slice text i j ≡ done (slice text i j) =
        checked_slice-done text i j (ground arith) (ground arith) in
      let prefix = if ltb 0 i then codes "..." else [] in
      let suffix = if ltb j (length text) then codes "..." else [] in
      (prefix ++ (slice text i j ++ suffix), rw (nonempty, build_snippet) (rw middle refl))
]
  where
    window : ℕ
    window = if context == 0 then 24 else context

-- `h` is a hit on the range from `start` to `end`.
pub record IsHitAt (value : Text) (start end : ℕ) (h : Hit) : Type 0 where
  pub starts : h.position_start ≡ start
  pub ends : h.position_end ≡ end
  pub matched : h.matched_text ≡ slice value start end

pub build_hit-done :
    (rule : KeywordRule) (field value matched : Text) (start end context : ℕ)
    → start ≤ end
    → end ≤ length value
    → (snippet : Text) × (build_hit rule field value matched start end context
        ≡ done (hit_of rule field matched snippet start end))
unfolding build_hit
build_hit-done rule field value matched start end context h k =
    let (snippet, e) = build_snippet-done value start end context h k in
    (snippet, rw (e, build_hit) refl)

-- A text read on from a later position.
drop-later : (s : Text) (from k : ℕ) → from ≤ k → drop k s ≡ drop (k - from) (drop from s)
drop-later s from k h =
    let e : k ≡ from + (k - from) = omega arith in
    ap (λ (n : ℕ). drop n s) e ∙ sym (drop-drop (k - from) from s)

-- From `from` on, the hits are the occurrences of the needle from the left: none starts between the
-- end of one and the start of the next.
abbrev pub FindsAll : Text → Text → Text → ℕ → ℕ → List Hit → Type 0
FindsAll value lower_value lower_needle width from [] =
    (k : ℕ)
    → from ≤ k
    → k ≤ length lower_value
    → has_prefix (drop k lower_value) lower_needle ≡ false
FindsAll value lower_value lower_needle width from (h ∷ hits) =
    (from ≤ h.position_start)
    × ((k : ℕ)
        → from ≤ k
        → k < h.position_start
        → has_prefix (drop k lower_value) lower_needle ≡ false)
    × (has_prefix (drop h.position_start lower_value) lower_needle ≡ true)
    × (h.position_start + width ≤ length value)
    × IsHitAt value h.position_start (h.position_start + width) h
    × FindsAll value lower_value lower_needle width (h.position_start + width) hits

module _ (u : Unicode) (s : KeywordScanner) (rule : KeywordRule) (field value : Text) where
  module _ (lv ln : Text) (width : ℕ) (same_value : length lv ≡ length value)
      (same_needle : length ln ≡ width) (nonempty : 0 < width) where
    abbrev Found : ℕ → ℕ → Type 0
    Found fuel from =
        (hits : List Hit) × (contains_loop u s rule field value lv ln width fuel from ≡ done hits)
        × FindsAll value lv ln width from hits

    contains_loop-FindsAll :
        (fuel from : ℕ) → from ≤ length lv → length lv < fuel + from → Found fuel from
    unfolding contains_loop
    contains_loop-FindsAll zero from le enough = absurd (omega arith)
    contains_loop-FindsAll (suc fuel) from le enough =
        elim (Option-cases (index (drop from lv) ln)) [
          | inl over ↦ (
            [],
            rw (le→leb from (length lv) le, over, contains_loop) refl,
            λ k h l.
                rw (drop-later lv from k h) (
                  index-none (drop from lv) ln (k - from) over
                    (omega (arith, length-drop from lv))),
          )
          | inr (i, e) ↦
              let start = from + i in
              let end = start + width in
              let room : end ≤ length value =
                omega (arith, index-length (drop from lv) ln {i = i} e, length-drop from lv) in
              let matched = slice value start end in
              let cut = checked_slice-done value start end (omega arith) room in
              let (snippet, built) =
                build_hit-done rule field value matched start end s.snippet_context (omega arith)
                  room in
              let (hits, rest, more) =
                contains_loop-FindsAll fuel end (omega arith) (omega arith) in
              (
                hit_of rule field matched snippet start end ∷ hits,
                rw (le→leb from (length lv) le, e, cut, built, rest, contains_loop) refl,
                (
                  omega arith,
                  λ k h l.
                      rw (drop-later lv from k h)
                        (index-first (drop from lv) ln (k - from) {i = i} e (omega arith)),
                  rw (← drop-drop i from lv) (index-has_prefix (drop from lv) ln {i = i} e),
                  room,
                  record { starts = refl; ends = refl; matched = refl },
                  more,
                ),
              )
        ]

  length-pos : (t : Text) → is_empty t ≡ false → 0 < length t
  unfolding is_empty
  length-pos [] h = cc
  length-pos (a ∷ t) h = omega arith

  -- For a keyword that is not blank, if lower case keeps the byte lengths of the field and of the
  -- trimmed keyword, the contains match neither panics nor runs on for ever, and its hits are
  -- exactly the occurrences from the left, each with the bytes of the field at its position.
  pub contains_hits-FindsAll :
      let needle = trim_space rule.name in
      is_empty needle ≡ false
      → length (to_lower u value) ≡ length value
      → length (to_lower u needle) ≡ length needle
      → (hits : List Hit) × (contains_hits u s rule field value ≡ done hits)
        × FindsAll value (to_lower u value) (to_lower u needle) (length needle) 0 hits
  unfolding contains_hits
  contains_hits-FindsAll some_needle same_value same_needle =
      let needle = trim_space rule.name in
      let (hits, runs, finds) =
        contains_loop-FindsAll (to_lower u value) (to_lower u needle) (length needle) same_value
          same_needle (length-pos needle some_needle) (length (to_lower u value) + 2) 0
          (omega arith) (omega arith) in
      (hits, rw (some_needle, contains_hits) runs, finds)

  checked_slice-panics : (i j : ℕ) → length value < j → checked_slice value i j ≡ panicked
  unfolding checked_slice
  checked_slice-panics i j h = ground arith

  contains_loop-panics :
      (lv ln : Text) (width fuel i : ℕ)
      → index lv ln ≡ some i
      → length value < i + width
      → contains_loop u s rule field value lv ln width (suc fuel) 0 ≡ panicked
  unfolding contains_loop
  contains_loop-panics lv ln width fuel i found past =
      rw
        (
          found,
          le→leb 0 (length lv) (omega arith),
          checked_slice-panics (0 + i) (0 + i + width) (omega arith),
          contains_loop,
        )
        refl

  -- The positions are those of the lower-case text, but index the field as it stands: for a
  -- keyword that is not blank, where lower case has moved its first occurrence so far back that
  -- its end lies past the field, the match panics.
  pub contains_hits-panics :
      (i : ℕ)
      → let needle = trim_space rule.name in
        is_empty needle ≡ false
        → index (to_lower u value) (to_lower u needle) ≡ some i
        → length value < i + length needle
        → contains_hits u s rule field value ≡ panicked
  unfolding contains_hits
  contains_hits-panics i some_needle found past =
      let needle = trim_space rule.name in
      let lv = to_lower u value in
      let fuel : length lv + 2 ≡ suc (length lv + 1) = omega arith in
      rw (some_needle, contains_hits)
        (rw fuel (
          contains_loop-panics lv (to_lower u needle) (length needle) (length lv + 1) i found past))
