-- ===== src/StringInternalizer.antt =====
-- StringInternalizer (include/env/stringInternalizer.h): a set of strings whose addresses stand for them.
--
-- An address is modelled by the position of the string in the order in which the set took it in; the
-- elements of an unordered_set keep their addresses.
pub mod Addresses
mod Tests
use columbo.Base.{
  ℕ, zero, suc, ◌+◌, Bool, true, false, ◌&&◌, List, [], ◌∷◌, ◌++◌, length, Option, none, some, ◌==◌,
  if◌then◌else◌,
}

-- A std::string.
abbrev pub Text : Type 0
Text = List ℕ

unfoldable pub text_eq : Text → Text → Bool
text_eq [] [] = true
text_eq [] (d ∷ ds) = false
text_eq (c ∷ cs) [] = false
text_eq (c ∷ cs) (d ∷ ds) = c == d && text_eq cs ds

-- The string at an address.
unfoldable pub deref : List Text → ℕ → Option Text
deref [] i = none
deref (s ∷ ss) zero = some s
deref (s ∷ ss) (suc i) = deref ss i

-- `emplace`: the set afterwards, and the position of the element that is equal to the string.
unfoldable pub internalize : List Text → Text → List Text × ℕ
unfolding text_eq
internalize [] symbol = (symbol ∷ [], 0)
internalize (s ∷ ss) symbol =
    let (more, i) = internalize ss symbol in
    if text_eq s symbol then (s ∷ ss, 0) else (s ∷ more, i + 1)
