-- ===== src/Text/ShellArg.antt =====
-- `escapeshellarg` of lib/string.c (the branch that is not for Windows), against the quoting rules
-- of a POSIX shell.
use gnuweeb_bot.Base.{
  ℕ, suc, ◌+◌, ◌*◌, ◌≤◌, ◌≡◌, ◌↔◌, refl, Option, none, some, [], ◌∷◌, ◌++◌, arith, ltb, ◌==◌,
  if◌then◌else◌, take, length, length-append, strlen, Bytes,
}

-- The loop; a quote is written behind `'\'`.
escape_all : Bytes → Bytes
escape_all [] = []
escape_all (c ∷ s) =
    if c == b'\'' then b'\'' ∷ b'\\' ∷ b'\'' ∷ c ∷ escape_all s else c ∷ escape_all s

-- `l` of the code: the given length, or that of the text where it is 0.
abbrev pub arg_len : Bytes → ℕ → ℕ
arg_len str len = if ltb 0 len then len else strlen str

-- The text that is written, without the 0 behind it, and `*res_len`.
unfoldable pub escapeshellarg : Bytes → ℕ → Bytes × ℕ
unfolding escape_all
escapeshellarg str len =
    let cmd = b'\'' ∷ (escape_all (take (arg_len str len) str) ++ b'\'' ∷ []) in (cmd, length cmd)

-- `malloc((sizeof(char) * l * 4) + 1)`
pub worst_case : ℕ → ℕ
worst_case l = l * 4 + 1

-- How a POSIX shell reads one word: outside quotes, behind a backslash there, or inside quotes.
-- `none` is a word that is not finished, or a byte that is not protected by any quoting.
data Mode : Type 0 where
  outside escaped inside : Mode

push : ℕ → Option Bytes → Option Bytes
push c none = none
push c (some s) = some (c ∷ s)

read_word : Mode → Bytes → Option Bytes
unfolding push
read_word outside [] = some []
read_word escaped [] = none
read_word inside [] = none
read_word outside (c ∷ s) =
    let quoted = read_word inside s in
    let skip = read_word escaped s in
    if c == b'\'' then quoted else if c == b'\\' then skip else none
read_word escaped (c ∷ s) = push c (read_word outside s)
read_word inside (c ∷ s) =
    let unquoted = read_word outside s in
    let rest = push c (read_word inside s) in if c == b'\'' then unquoted else rest

pub shell_word : Bytes → Option Bytes
unfolding read_word
shell_word s = read_word outside s

read-escape_all : (s : Bytes) → read_word inside (escape_all s ++ b'\'' ∷ []) ≡ some s
unfolding read_word escape_all
read-escape_all [] = refl
read-escape_all (c ∷ s) = ground (arith, read-escape_all s)

-- A shell reads the result as one word, and that word is the argument: no byte of it is special.
pub shell_word-escapeshellarg :
    (str : Bytes) (len : ℕ)
    → shell_word (escapeshellarg str len).0 ≡ some (take (arg_len str len) str)
unfolding shell_word escapeshellarg
shell_word-escapeshellarg str len = read-escape_all (take (arg_len str len) str)

abbrev pub quotes : Bytes → ℕ
quotes [] = 0
quotes (c ∷ s) = if c == b'\'' then suc (quotes s) else quotes s

length-escape_all : (s : Bytes) → length (escape_all s) ≡ length s + 3 * quotes s
unfolding escape_all
length-escape_all [] = refl
length-escape_all (c ∷ s) = ground (arith, length-escape_all s)

-- With the 0 behind it the result fits in the block that is allocated for `l` bytes exactly when
-- three times the quotes and two more are at most three times `l`: not for an empty text, and not
-- for one of quotes alone.
pub escapeshellarg_fits :
    (str : Bytes) (len : ℕ)
    → length (take (arg_len str len) str) ≡ arg_len str len
    → ((escapeshellarg str len).1 + 1 ≤ worst_case (arg_len str len))
      ↔ (3 * quotes (take (arg_len str len) str) + 2 ≤ 3 * arg_len str len)
unfolding escapeshellarg worst_case
escapeshellarg_fits str len h =
    let s = take (arg_len str len) str in
    let size = length-append (escape_all s) (b'\'' ∷ []) in
    ((λ f. omega (arith, size, length-escape_all s)), λ f. omega (arith, size, length-escape_all s))
