-- ===== src/Tests/Separators.antt =====
-- The text of a log, and the theorem on line separators, at a concrete record.
use mandare.Prelude.{
  String, ◌≡◌, ◌≢◌, refl, sym, ◌∙◌, true, inl, inr, Bool-cases, Option, none, some, [], ◌∷◌, ◌==◌,
  eq_iff, if◌then◌else◌, ok, err, value_error,
}
use mandare.Values.{Value, text, dict, Fields, end, field}
use mandare.Audit.{genesis_hash, with_hash}
use mandare.Storage.{row, breaks, read_all}
use mandare.Storage.Text.{join, has_break, read_text, IsJson}
use mandare.Storage.Chain.{append_chained, chained_row, verify, verification}
use mandare.Storage.Chain.Separators.{append_chained_unreadable}
use mandare.Tests.Fixtures.{fixed_host}

-- A text with a line separator, U+2028.
abbrev torn_event : Fields
torn_event = field "note" (text "a\u{2028}b") end

abbrev torn_row : Value
torn_row = chained_row torn_event (with_hash "e1" "2026" (dict torn_event) genesis_hash "ab12")

-- What a row's text has after its brace, as far as it matters here.
abbrev body : String
body = "note\u{2028}}"

-- A `json.loads` that reads one text.
abbrev loads_one : String → Value → String → Option Value
loads_one d v s = if s == d then some v else none

join_self : (s t : String) → join s t ≡ s → t ≡ ""
join_self String.[] t e = e
join_self (String.◌∷◌ c s) t e = join_self s t (cc e)

loads_one_part : (d s t : String) (v : Value) → join s t ≡ d → t ≢ "" → loads_one d v s ≡ none
loads_one_part d s t v joined more = elim (Bool-cases (s == d)) [
  | inr other ↦ rw other refl
  | inl same ↦ absurd (more (join_self s t (joined ∙ sym ((eq_iff s d).0 same))))
]

torn_row-IsJson : IsJson (loads_one "{note\u{2028}}" torn_row) body torn_row
unfolding breaks has_break mandare.Values.set_field
torn_row-IsJson = record {
  back = refl;
  no_part = λ s t joined more. loads_one_part "{note\u{2028}}" s t torn_row joined more;
  same_breaks = refl;
}

append_chained_unreadable_example :
    (append_chained fixed_host "e1" "2026" torn_event [] ≡ ok (row torn_row ∷ []))
    × (read_text (loads_one "{note\u{2028}}" torn_row) "{note\u{2028}}\nmore" ≡ err value_error)
unfolding read_all verify breaks mandare.Values.set_field mandare.Values.get_field
    mandare.Values.Normal.normalize_for_json mandare.Storage.Chain.Verified.after_all
append_chained_unreadable_example =
    append_chained_unreadable fixed_host (loads_one "{note\u{2028}}" torn_row) "e1" "2026"
      torn_event torn_event [] [] (verification true 0 0 none) body "more" tt refl refl refl refl
      refl refl torn_row-IsJson

read_text_run :
    read_text (loads_one "{}" (dict end)) "{}\n \r\n{}\n" ≡ ok (dict end ∷ dict end ∷ [])
unfolding read_text
read_text_run = refl
