-- ===== src/LineHandler/Scan.antt =====
-- The methods of LineHandler (source/reader/cReader.cpp) that go over the line by its text alone.
use columbo.Base.{ℕ, ◌≡◌, Bool, not, List}
use columbo.Chars.{is_space}
use columbo.LineHandler.{
  LineHandler, trim_l, trim_till_whitespace, extract_and_substr_until, skip_till,
  consume_and_trim_string, consume_and_trim_char,
}
use columbo.LineHandler.Rest.{IsValid, rest, take_while, drop_while}
use columbo.LineHandler.Consume.{
  Strips, stripped, stripped_char, non_empty, consume_and_trim_string_lem,
  consume_and_trim_char_lem, skip_till_lem,
}
use columbo.LineHandler.Text.{trim_lem, extract_and_substr_until_lem}

-- On a valid handler: ConsumeAndTrimString succeeds exactly where what is left of the line is not empty and begins with
-- the text, and takes it off; ConsumeAndTrimChar succeeds exactly where the next byte is the one asked for, and
-- takes it off; SkipTill goes to the next byte that passes the predicate, if there is one; where one of these
-- fails, it leaves the line as it is. TrimL and TrimTillWhitespace go to the first byte that is no blank, and to the
-- first blank. ExtractAndSubstrUntil returns the leading bytes that pass the predicate, and leaves the others.
pub scan_lem :
    (h : LineHandler) (text : List ℕ) (c : ℕ) (p : ℕ → Bool)
    → IsValid h
    → Strips (rest h) (stripped text (rest h)) (consume_and_trim_string h text)
      × Strips (rest h) (stripped_char c (rest h)) (consume_and_trim_char h c)
      × Strips (rest h) (non_empty (drop_while (λ x. not (p x)) (rest h))) (skip_till h p)
      × (rest (trim_l h) ≡ drop_while is_space (rest h))
      × (rest (trim_till_whitespace h) ≡ drop_while (λ x. not (is_space x)) (rest h))
      × ((extract_and_substr_until h p).1 ≡ take_while p (rest h))
      × (rest (extract_and_substr_until h p).0 ≡ drop_while p (rest h))
scan_lem h text c p v =
    let (left, to_blank) = trim_lem h v in
    let (taken, others) = extract_and_substr_until_lem h p v in
    (
      consume_and_trim_string_lem h text v,
      consume_and_trim_char_lem h c v,
      skip_till_lem h p v,
      left,
      to_blank,
      taken,
      others,
    )
