-- ===== src/StaticNode/Quoting.antt =====
-- The quoting of a command's arguments, against a reading of words as a POSIX shell does it.
use Prim.Native.Char.{Char, code}
use Prim.Native.String.{String, ◌++◌ as concat, char_at}
use Prim.Native.String.append
use text.Mathlib.TextLemmas.{append_assoc}
use text.Mathlib.TextEquality.{Char-path}
use neutree.Prelude.{
  Option, none, some, true, false, ◌||◌, ◌≡◌, refl, ◌∙◌, ap, nat_eq, inl, inr, Bool-cases, arith,
  if◌then◌else◌,
}
use neutree.Strings.{replace_char}
use neutree.StaticNode.RunCommand.{shell_arg}

pub data Quote : Type 0 where
  outside single double : Quote

abbrev pub push : Char → Option String → Option String
push c none = none
push c (some s) = some (String.◌∷◌ c s)

-- The value of a text that the shell reads as one word, none where it is not one: a character
-- without quotes ends the word or has a meaning of its own, and between double quotes `$`, the
-- backquote and the backslash have one.
unfoldable pub shell_word : Quote → String → Option String
shell_word outside String.[] = some ""
shell_word single String.[] = none
shell_word double String.[] = none
shell_word outside (String.◌∷◌ c s) =
    let quoted = shell_word single s in
    let in_double = shell_word double s in
    if nat_eq (code c) b'\'' then quoted else if nat_eq (code c) b'"' then in_double else none
shell_word single (String.◌∷◌ c s) =
    let after = shell_word outside s in
    let rest = shell_word single s in if nat_eq (code c) b'\'' then after else push c rest
shell_word double (String.◌∷◌ c s) =
    let after = shell_word outside s in
    let rest = shell_word double s in
    if nat_eq (code c) b'"'
    then after
    else if nat_eq (code c) b'$' || nat_eq (code c) b'`' || nat_eq (code c) b'\\'
    then none
    else push c rest

abbrev quote_mark : Char
quote_mark = char_at "'" 0

abbrev double_mark : Char
double_mark = char_at "\"" 0

-- What stands for a quote within quotes, as its five characters.
quote_text :
    (t : String)
    → concat "'\"'\"'" t
      ≡ String.◌∷◌ quote_mark (
          String.◌∷◌ double_mark
            (String.◌∷◌ quote_mark (String.◌∷◌ double_mark (String.◌∷◌ quote_mark t))))
quote_text t =
    append.cons quote_mark "\"'\"'" t
    ∙ ap (String.◌∷◌ quote_mark) (
        append.cons double_mark "'\"'" t
        ∙ ap (String.◌∷◌ double_mark) (
            append.cons quote_mark "\"'" t
            ∙ ap (String.◌∷◌ quote_mark) (
                append.cons double_mark "'" t
                ∙ ap (String.◌∷◌ double_mark)
                    (append.cons quote_mark "" t ∙ ap (String.◌∷◌ quote_mark) (append.nil t)))))

word-quote_text :
    (t : String) → shell_word single (concat "'\"'\"'" t) ≡ push quote_mark (shell_word single t)
unfolding shell_word
word-quote_text t = rw (quote_text t)

abbrev marked : String → String
marked value = replace_char value b'\'' "'\"'\"'"

marked-mark :
    (c : Char) (s : String)
    → nat_eq (code c) b'\'' ≡ true
    → marked (String.◌∷◌ c s) ≡ concat "'\"'\"'" (marked s)
unfolding replace_char
marked-mark c s mark = rw mark

marked-plain :
    (c : Char) (s : String)
    → nat_eq (code c) b'\'' ≡ false
    → marked (String.◌∷◌ c s) ≡ String.◌∷◌ c (marked s)
unfolding replace_char
marked-plain c s plain = rw plain

word-cons :
    (c : Char) (t : String)
    → nat_eq (code c) b'\'' ≡ false
    → shell_word single (String.◌∷◌ c t) ≡ push c (shell_word single t)
unfolding shell_word
word-cons c t plain = rw plain

word-marked : (value : String) → shell_word single (concat (marked value) "'") ≡ some value
unfolding shell_word replace_char
word-marked String.[] = refl
word-marked (String.◌∷◌ c s) =
    let rest = word-marked s in
    elim (Bool-cases (nat_eq (code c) b'\'')) [
      | inl mark ↦
          let same : code quote_mark ≡ code c = ground (arith, mark) in
          ap (λ v. shell_word single (concat v "'")) (marked-mark c s mark)
          ∙ ap (shell_word single) (append_assoc "'\"'\"'" (marked s) "'")
          ∙ word-quote_text (concat (marked s) "'")
          ∙ ap (push quote_mark) rest
          ∙ ap (λ d. some (String.◌∷◌ d s)) (Char-path quote_mark c same)
      | inr plain ↦
          ap (λ v. shell_word single (concat v "'")) (marked-plain c s plain)
          ∙ ap (shell_word single) (append.cons c (marked s) "'")
          ∙ word-cons c (concat (marked s) "'") plain
          ∙ ap (push c) rest
    ]

word-open : (t : String) → shell_word outside (concat "'" t) ≡ shell_word single t
unfolding shell_word
word-open t = rw (append.cons quote_mark "" t) (ap (shell_word single) (append.nil t))

-- Whatever a value holds, quotes, blanks, dollar signs and semicolons included, the shell reads its
-- quoted form as one word that is the value itself.
pub shell_word-shell_arg : (value : String) → shell_word outside (shell_arg value) ≡ some value
unfolding shell_arg
shell_word-shell_arg value = word-open (concat (marked value) "'") ∙ word-marked value
