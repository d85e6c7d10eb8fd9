-- ===== src/Differ/Settled.antt =====
-- Comments and a color that were changed as requested need no further change.
use arodonata.Common.{
  String, ◌||◌, Option, none, some, List, str_eq, str_eq_self, ◌≡◌, inl, inr, refl, arith,
  Bool-cases,
}
use arodonata.Common.Text.{strip, lower}
use arodonata.Common.Text.Stripped.{strip_idem}
use arodonata.Common.Json.{Value, Fields, find, to_list, text_by}
use arodonata.Differ.Tags.{tags_idem, same_list_self}
use arodonata.Differ.{
  sort_tags, clean_tags, text_values, same_list, tags_change, is_null, or_blank, comments_change,
  color_change, common_metadata_diff,
}

-- The value after a change, which may be missing.
abbrev pub changed {ℓ} : {A : Type ℓ} → A → Option A → A
changed old none = old
changed old (some new) = new

abbrev pub changed_to {ℓ} : {A : Type ℓ} → Option A → Option A → Option A
changed_to old none = old
changed_to old (some new) = some new

comments_change_settles :
    (show : Value → String) (comments : String) (v : Value)
    → comments_change show (changed comments (comments_change show comments v)) v ≡ none
unfolding comments_change
comments_change_settles show comments v =
    elim (Bool-cases (is_null v || str_eq (text_by show v) comments)) [
      | inl same ↦ rw same (rw same refl)
      | inr other ↦ rw other (ground (arith, str_eq_self (text_by show v)))
    ]

color_change_settles :
    (show : Value → String) (color : Option String) (v : Value)
    → color_change show (changed_to color (color_change show color v)) v ≡ none
unfolding color_change or_blank
color_change_settles show color v =
    elim (Bool-cases
      (is_null v || str_eq (lower (strip (text_by show v))) (lower (strip (or_blank color))))) [
        | inl same ↦ rw same (rw same refl)
        | inr other ↦
            rw (other, strip_idem (text_by show v))
              (ground (arith, str_eq_self (lower (strip (text_by show v)))))
      ]

tags_change_settles :
    (show : Value → String) (tags : List String) (v : Value)
    → tags_change show (changed tags (tags_change show tags v)) v ≡ none
unfolding tags_change
tags_change_settles show tags (Value.arr vs) =
    let wanted = sort_tags (clean_tags (text_values show (to_list vs))) in
    elim (Bool-cases (same_list wanted (sort_tags (clean_tags tags)))) [
      | inl same ↦ rw same (rw same refl)
      | inr other ↦
          rw (other, tags_idem (text_values show (to_list vs)), same_list_self wanted) refl
    ]
tags_change_settles show tags (Value.str s) = refl
tags_change_settles show tags (Value.num n) = refl
tags_change_settles show tags (Value.bool b) = refl
tags_change_settles show tags Value.null = refl
tags_change_settles show tags (Value.obj fs) = refl

-- Once comments, color and tags are as the differences say, no difference of them is left.
pub common_metadata_diff_settles :
    (show : Value → String) (comments : String) (color : Option String) (tags : List String)
    (desired : Fields)
    → let first = common_metadata_diff show comments color tags desired in
      common_metadata_diff show
        (changed comments first.comments)
        (changed_to color first.color)
        (changed tags first.tags)
        desired
      ≡ record { comments = none; color = none; tags = none }
unfolding common_metadata_diff
common_metadata_diff_settles show comments color tags desired =
    rw
      (
        comments_change_settles show comments (find "comments" desired),
        color_change_settles show color (find "color" desired),
        tags_change_settles show tags (find "tags" desired),
      )
      refl
