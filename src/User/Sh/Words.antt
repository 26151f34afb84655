-- ===== src/User/Sh/Words.antt =====
-- The loops of parseredirs, parseexec and parseline of xv6/user/sh.c read back what is printed.
use ru_shell.Base.{
  Bool, List, [], ap, arith, codes, false, length, map, refl, suc, true, zero, ℕ, ◌&&◌, ◌++◌, ◌<◌,
  ◌∙◌, ◌∷◌, ◌≡◌,
}
use ru_shell.User.Sh.{
  Parser, Redir, among, gettoken, panics, parsed, parseredirs, peek, redir_of, runs_out,
  starts_with, token, ◌>>=◌,
}
use ru_shell.User.Sh.Tokens.{
  and_parts, gettoken-append, gettoken-from, gettoken-to, gettoken-word, is_word, peek-starts,
  starts, starts-word,
}
use ru_shell.User.Sh.Grammar.{
  Argument, Direction, Redirection, append_file, args_ok, from_file, names_ok, operator, redir_cmd,
  show_args, show_redirs, to_file,
}

pub bind-parsed :
    {A B : Type 0} (m : Parser A) (f : A → Parser B) (s rest : List ℕ) (a : A)
    → m s ≡ parsed a rest
    → (m >>= f) s ≡ f a rest
bind-parsed m f s rest a e =
    ap (λ o. elim o [ panics ↦ panics | runs_out ↦ runs_out | parsed x r ↦ f x r ]) e

starts-operator : (d : Direction) (s : List ℕ) → starts (operator d s) ≡ true
starts-operator from_file s = refl
starts-operator to_file s = refl
starts-operator append_file s = refl

pub starts-show_redirs :
    (rs : List Redirection) (s : List ℕ) → starts s ≡ true → starts (show_redirs rs s) ≡ true
starts-show_redirs [] s h = h
starts-show_redirs (r ∷ rs) s h = starts-operator r.direction (32 ∷ r.name ++ 32 ∷ show_redirs rs s)

pub token_lem :
    (s text rest : List ℕ) (ret : ℕ)
    → gettoken s ≡ (ret, text, rest)
    → token s ≡ parsed (ret, text) rest
unfolding token
token_lem s text rest ret e = ap (λ (t : ℕ × List ℕ × List ℕ). parsed (t.0, t.1) t.2) e

-- What `gettoken` gives for an operator.
abbrev operator_code : Direction → ℕ
operator_code from_file = b'<'
operator_code to_file = b'>'
operator_code append_file = b'+'

token-operator :
    (d : Direction) (s : List ℕ)
    → starts s ≡ true
    → token (operator d (32 ∷ s)) ≡ parsed (operator_code d, operator d []) s
token-operator from_file s h = token_lem (b'<' ∷ 32 ∷ s) (b'<' ∷ []) s b'<' (gettoken-from s h)
token-operator to_file s h = token_lem (b'>' ∷ 32 ∷ s) (b'>' ∷ []) s b'>' (gettoken-to s h)
token-operator append_file s h =
    token_lem (b'>' ∷ b'>' ∷ 32 ∷ s) (b'>' ∷ b'>' ∷ []) s b'+' (gettoken-append s h)

peek-operator :
    (d : Direction) (s : List ℕ) → peek (codes "<>") (operator d s) ≡ parsed true (operator d s)
peek-operator from_file s = peek-starts (codes "<>") (b'<' ∷ s) refl
peek-operator to_file s = peek-starts (codes "<>") (b'>' ∷ s) refl
peek-operator append_file s = peek-starts (codes "<>") (b'>' ∷ b'>' ∷ s) refl

redir_of-operator :
    (d : Direction) (f : List ℕ)
    → redir_of (operator_code d) f ≡ redir_cmd (record { direction = d; name = f })
unfolding redir_of
redir_of-operator from_file f = refl
redir_of-operator to_file f = refl
redir_of-operator append_file f = refl

-- The round for one redirection, in front of a text on which the next round gives `more`.
redir_round :
    (d : Direction) (f s : List ℕ) (n : ℕ) (more : List Redir) (rest : List ℕ)
    → is_word f ≡ true
    → starts s ≡ true
    → parseredirs n s ≡ parsed more rest
    → parseredirs (suc n) (operator d (32 ∷ f ++ 32 ∷ s))
      ≡ parsed (redir_cmd (record { direction = d; name = f }) ∷ more) rest
unfolding parseredirs
redir_round d f s n more rest h g e =
    let sf = starts-word f (32 ∷ s) h in
    let all = operator d (32 ∷ f ++ 32 ∷ s) in
    bind-parsed (peek (codes "<>")) _ all all true (peek-operator d (32 ∷ f ++ 32 ∷ s))
    ∙ bind-parsed token _ all (f ++ 32 ∷ s) (operator_code d, operator d [])
        (token-operator d (f ++ 32 ∷ s) sf)
    ∙ bind-parsed token _ (f ++ 32 ∷ s) s (b'a', f)
        (token_lem (f ++ 32 ∷ s) f s b'a' (gettoken-word f s h g))
    ∙ bind-parsed (parseredirs n) _ s rest more e
    ∙ ap (λ r. parsed (r ∷ more) rest) (redir_of-operator d f)

pub parseredirs-show_redirs :
    (rs : List Redirection) (n : ℕ) (s : List ℕ)
    → names_ok rs ≡ true
    → starts s ≡ true
    → starts_with (codes "<>") s ≡ false
    → length rs < n
    → parseredirs n (show_redirs rs s) ≡ parsed (map redir_cmd rs) s
parseredirs-show_redirs rs zero s ok h g l = absurd (omega arith)
parseredirs-show_redirs [] (suc n) s ok h g l =
    unfold parseredirs in
    bind-parsed (peek (codes "<>")) _ s s false
      (peek-starts (codes "<>") s h ∙ ap (λ b. parsed b s) g)
parseredirs-show_redirs (r ∷ rs) (suc n) s ok h g l =
    let (o, oks) = and_parts (is_word r.name) (names_ok rs) ok in
    redir_round r.direction r.name (show_redirs rs s) n (map redir_cmd rs) s o
      (starts-show_redirs rs s h) (parseredirs-show_redirs rs n s oks h g (omega arith))

pub starts-show_args :
    (xs : List Argument) (s : List ℕ)
    → args_ok xs ≡ true
    → starts s ≡ true
    → starts (show_args xs s) ≡ true
starts-show_args [] s ok h = h
starts-show_args ((w, rs) ∷ xs) s ok h =
    let (os, _) = and_parts (is_word w && names_ok rs) (args_ok xs) ok in
    let (o, _) = and_parts (is_word w) (names_ok rs) os in
    starts-word w (32 ∷ show_redirs rs (show_args xs s)) o

-- Where the words of a command end.
abbrev pub stops : List ℕ → Bool
stops [] = true
stops (c ∷ s) = among (codes "|)&;") c
