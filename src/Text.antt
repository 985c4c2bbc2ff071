-- ===== src/Text.antt =====
-- What the server uses of C's string functions, on the bytes of a text before its terminating
-- zero.
pub mod Numbers
pub mod Scan
use Prim.Native.Char.{code}
use Prim.Native.String.{String}
use myyima.Prelude.{
  ℕ, ◌+◌, Bool, true, false, ◌&&◌, ◌||◌, Option, none, some, List, [], ◌∷◌, ◌++◌, leb, ◌==◌,
  if◌then◌else◌,
}
use myyima.Messages.{Name}

-- A text that stands in the source, which is ASCII there.
abbrev pub codes : String → Name
codes String.[] = []
codes (String.◌∷◌ c s) = code c ∷ codes s

abbrev pub has : Name → ℕ → Bool
has [] c = false
has (d ∷ ds) c = d == c || has ds c

-- The first strcspn(s, ds) bytes of `s`.
abbrev pub until : Name → Name → Name
until ds [] = []
until ds (c ∷ cs) = if has ds c then [] else c ∷ until ds cs

-- What follows those and the byte after them.
abbrev pub beyond : Name → Name → Name
beyond ds [] = []
beyond ds (c ∷ cs) = if has ds c then cs else beyond ds cs

abbrev skip : Name → Name → Name
skip ds [] = []
skip ds (c ∷ cs) = if has ds c then skip ds cs else c ∷ cs

abbrev token_at : Name → Name → Option (Name × Name)
token_at ds [] = none
token_at ds (c ∷ cs) = some (until ds (c ∷ cs), beyond ds (c ∷ cs))

-- strtok: the token, and the text that the next call goes on with.
abbrev pub strtok : Name → Name → Option (Name × Name)
strtok ds s = token_at ds (skip ds s)

abbrev pub lower : ℕ → ℕ
lower c = if leb b'A' c && leb c b'Z' then c + 32 else c

abbrev pub starts : Name → Name → Bool
starts [] s = true
starts (d ∷ ds) [] = false
starts (d ∷ ds) (c ∷ cs) = lower d == lower c && starts ds cs

-- strcasestr, with a text to look for that is not empty.
abbrev pub strcasestr : Name → Name → Option Name
strcasestr ds [] = none
strcasestr ds (c ∷ cs) = if starts ds (c ∷ cs) then some (c ∷ cs) else strcasestr ds cs

-- A text put together by strcat.
abbrev pub concat : List Name → Name
concat [] = []
concat (s ∷ ss) = s ++ concat ss
