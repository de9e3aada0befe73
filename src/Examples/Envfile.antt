-- ===== src/Examples/Envfile.antt =====
-- internal/envfile/store.go: a file that is read, edited and read again.
use oscar_corrtest.Base.{
  ℕ, ◌≡◌, ◌↔◌, ◌⊎◌, refl, List, [], ◌∷◌, ◌++◌, some, true, false, Bool, Result, ok, err, codes, inl,
  inr,
}
use oscar_corrtest.Envfile.Line.{
  assign, parse_line, parse_trimmed, assignment, raw_value, single_quoted, encode_value,
  needs_quotes,
}
use oscar_corrtest.Envfile.Overlay.{
  Store, EnvError, open_store, load, split_lines, pieces, document, replace, rewrite, new_lines,
  other_lines, end_last, nothing, trim_suffix,
}
use oscar_corrtest.Envfile.Precedence.{Answers, apply-Answers}
use oscar_corrtest.Envfile.Quote.{quote, escape}
use oscar_corrtest.Envfile.ReadBack.{reads_back_iff}
use oscar_corrtest.Envfile.Reopen.{Edit, replace_key, clear_key, apply, session, session_reopens}
use oscar_corrtest.Envfile.Text.{
  Chars, same, is_space, trim, trim_left, trim_right, after_prefix, cut, before_comment,
}

abbrev latin : ℕ → Bool
latin c = true

abbrev key : Chars
key = codes "OSCAR_API_KEY"

-- A value that begins with a no-break space, which is no space for `encodeValue` and one for `TrimSpace`.
abbrev odd : Chars
odd = 0xa0 ∷ codes "secret"

reads_back_iff_example :
    (parse_line (key ++ b'=' ∷ encode_value latin odd) ≡ ok (assign key odd))
    ↔ ((needs_quotes odd ≡ true) ⊎ (trim odd ≡ odd))
reads_back_iff_example =
    reads_back_iff latin key odd refl (refl, (refl, (refl, (refl, (refl, (refl, (refl, tt)))))))

odd_changes : parse_line (key ++ b'=' ∷ encode_value latin odd) ≡ ok (assign key (codes "secret"))
unfolding parse_line parse_trimmed assignment raw_value trim trim_left trim_right is_space
    after_prefix cut before_comment encode_value
odd_changes = refl

abbrev file : Chars
file = codes "# keys" ++ 10 ∷ (codes "export A='x y'" ++ 13 ∷ 10 ∷ codes "B = 2 # two")

opened : Result EnvError Store
unfolding open_store load split_lines pieces trim trim_left trim_right is_space parse_line
    parse_trimmed assignment raw_value single_quoted after_prefix cut before_comment trim_suffix
opened = open_store (codes "env") (some file)

abbrev store_or : Result EnvError Store → Store
store_or (ok s) = s
store_or (err e) = record { managed = nothing; live = nothing; lines = []; newline = [] }

opens : open_store (codes "env") (some file) ≡ ok (store_or opened)
unfolding opened
opens = refl

reads_a : (store_or opened).managed (codes "A") ≡ some (codes "x y")
unfolding opened same
reads_a = refl

reads_b : (store_or opened).managed (codes "B") ≡ some (codes "2")
unfolding opened same
reads_b = refl

abbrev edits : List (Edit latin)
edits =
    replace_key true key (codes "s t")
    ∷ clear_key true (codes "A")
    ∷ replace_key false key (codes "u")
    ∷ []

session_reopens_example :
    (s' : Store) × (open_store
        (codes "env")
        (some (document (session latin edits (store_or opened)).lines))
      ≡ ok s')
    × ((j : Chars) → s'.managed j ≡ (session latin edits (store_or opened)).managed j)
session_reopens_example =
    session_reopens latin (codes "env") (some file) (store_or opened) edits opens (
      ((refl, (refl, (refl, tt))), inl refl),
      (tt, (((refl, tt), inr (unfold trim trim_left trim_right is_space in refl)), tt)),
    )

abbrev edited : Store
edited = store_or (apply latin (replace_key true key (codes "s t")) (store_or opened))

edits_key : apply latin (replace_key true key (codes "s t")) (store_or opened) ≡ ok edited
unfolding opened replace rewrite new_lines other_lines end_last encode_value quote escape same
edits_key = refl

apply-Answers_example :
    Answers latin nothing (replace_key true key (codes "s t")) key (store_or opened) edited
apply-Answers_example =
    apply-Answers latin nothing (replace_key true key (codes "s t")) (store_or opened) edited key
      edits_key
