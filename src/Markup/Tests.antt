-- ===== src/Markup/Tests.antt =====
-- The scanner at concrete texts, with the Kelvin sign as the only rune beyond ASCII that has a lower case.
use generalcompute2api.Prelude.{[], ◌++◌, false, ℕ, ◌≡◌, refl, ◌∷◌, Option, none, some, arith, true}
use generalcompute2api.Prelude.Runs.{Ends, Run, ok, panics}
use generalcompute2api.Prelude.Text.{Str, codes}
use generalcompute2api.Util.Lower.{lower_kelvin, to_lower}
use generalcompute2api.Markup.Scan.{ToolMarkupTag, is_partial_tool_markup_tag_prefix}
use generalcompute2api.Markup.Bounds.{Differ}
use generalcompute2api.Markup.Found.{find_tool_markup_tag-Ends}
use generalcompute2api.Markup.TagEnds.{AllLieIn}
use generalcompute2api.Markup.Matched.{ClosesIn, find_matching_close-Ends}
use generalcompute2api.Markup.Panics.{find_tool_markup_tag_panics}
use generalcompute2api.Markup.Find.{
  find_matching_tool_markup_close, find_tool_markup_tag_outside_ignored,
}

abbrev summary : Run (Option ToolMarkupTag) → Run (Option (ℕ × ℕ))
summary (ok (some t)) = ok (some (t.start, t.end))
summary (ok none) = ok none
summary _ = panics

found_test :
    summary (
      find_tool_markup_tag_outside_ignored lower_kelvin
        (codes "a <![CDATA[ <invoke> ]]> <!-- <invoke> --> <|DSML|Tool_calls x='>'>b")
        0)
    ≡ ok (some (43, 66))
unfolding find_tool_markup_tag_outside_ignored to_lower
found_test = refl

partial_test : is_partial_tool_markup_tag_prefix lower_kelvin (codes "<|ds") ≡ ok true
unfolding is_partial_tool_markup_tag_prefix to_lower
partial_test = refl

-- A Kelvin sign before a later `<` makes the lower case text too short for the position.
kelvin_panics_test :
    summary (find_tool_markup_tag_outside_ignored lower_kelvin (0xe2 ∷ 0x84 ∷ 0xaa ∷ codes " a") 0)
    ≡ panics
unfolding find_tool_markup_tag_outside_ignored to_lower
kelvin_panics_test = refl

abbrev two_tags : Str
two_tags = codes "a <|tool_calls> b </tool_calls>"

find_tool_markup_tag-Ends_example :
    Ends
      (Differ (to_lower lower_kelvin two_tags) two_tags)
      (AllLieIn two_tags 1)
      (find_tool_markup_tag_outside_ignored lower_kelvin two_tags 1)
find_tool_markup_tag-Ends_example = find_tool_markup_tag-Ends lower_kelvin two_tags 1

abbrev opening_tag : ToolMarkupTag
opening_tag = record {
  start = 2;
  end = 14;
  name_start = 4;
  name_end = 14;
  name = codes "tool_calls";
  closing = false;
  self_closing = false;
  dsml_like = true;
  canonical = false;
}

find_matching_close-Ends_example :
    Ends
      (Differ (to_lower lower_kelvin two_tags) two_tags)
      (ClosesIn two_tags 15 (codes "tool_calls"))
      (find_matching_tool_markup_close lower_kelvin two_tags opening_tag)
find_matching_close-Ends_example = find_matching_close-Ends lower_kelvin two_tags opening_tag

-- "300 K" with a Kelvin sign.
abbrev kelvins : Str
kelvins = codes "300 " ++ (0xe2 ∷ 0x84 ∷ 0xaa ∷ [])

find_tool_markup_tag_panics_example :
    find_tool_markup_tag_outside_ignored lower_kelvin kelvins 0 ≡ panics
unfolding to_lower
find_tool_markup_tag_panics_example =
    find_tool_markup_tag_panics lower_kelvin kelvins (omega arith)
      (refl, (refl, (refl, (refl, (refl, (refl, (refl, tt)))))))
      (refl, (refl, (refl, (refl, (refl, tt)))))
