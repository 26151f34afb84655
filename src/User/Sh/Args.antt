-- ===== src/User/Sh/Args.antt =====
-- The loop of parseexec over words, and that of parseline over ampersands, of xv6/user/sh.c.
use ru_shell.Base.{
  List, [], ap, arith, codes, false, if◌then◌else◌, leb, length, map, refl, suc, true, zero, ℕ,
  ◌&&◌, ◌++◌, ◌+◌, ◌<◌, ◌∙◌, ◌∷◌, ◌≡◌, ◌≤◌,
}
use ru_shell.User.Sh.{
  Cmd, Parser, Redir, among, backcmd, is_symbol, maxargs, panic, parseargs, parsebacks, parsed,
  parseredirs, peek, pure, starts_with, token, ◌>>=◌,
}
use ru_shell.User.Sh.Tokens.{
  and_parts, gettoken-end, gettoken-symbol, gettoken-word, is_word, peek-starts, starts,
  starts-word, symbols-word,
}
use ru_shell.User.Sh.Grammar.{
  Argument, args_ok, args_redirs, args_size, args_words, backs, names_ok, redir_cmd, show_args,
  show_backs, show_redirs,
}
use ru_shell.User.Sh.Words.{
  bind-parsed, parseredirs-show_redirs, starts-show_args, starts-show_redirs, stops, token_lem,
}

stop_symbol : (c : ℕ) → is_symbol c ≡ false → among (codes "|)&;") c ≡ false
stop_symbol c h = ground (arith, h)

angle_symbol : (c : ℕ) → is_symbol c ≡ false → among (codes "<>") c ≡ false
angle_symbol c h = ground (arith, h)

-- No redirection stands where the words end.
pub stops-angle : (s : List ℕ) → stops s ≡ true → starts_with (codes "<>") s ≡ false
stops-angle [] h = refl
stops-angle (c ∷ s) h = ground (arith, h)

pub show_args-angle :
    (xs : List Argument) (s : List ℕ)
    → args_ok xs ≡ true
    → stops s ≡ true
    → starts_with (codes "<>") (show_args xs s) ≡ false
show_args-angle [] s ok h = stops-angle s h
show_args-angle ((w, rs) ∷ xs) s ok h =
    let (os, _) = and_parts (is_word w && names_ok rs) (args_ok xs) ok in
    let (o, _) = and_parts (is_word w) (names_ok rs) os in
    symbols-word (codes "<>") w (32 ∷ show_redirs rs (show_args xs s)) o angle_symbol

parseargs-none :
    (n argc : ℕ) (s : List ℕ)
    → starts s ≡ true
    → stops s ≡ true
    → parseargs (suc n) argc s ≡ parsed ([], []) s
unfolding parseargs
parseargs-none n argc [] g h =
    bind-parsed (peek (codes "|)&;")) _ [] [] false (peek-starts (codes "|)&;") [] refl)
    ∙ bind-parsed token _ [] [] (0, []) (token_lem [] [] [] 0 gettoken-end)
parseargs-none n argc (c ∷ s) g h =
    bind-parsed (peek (codes "|)&;")) _ (c ∷ s) (c ∷ s) true
      (peek-starts (codes "|)&;") (c ∷ s) g ∙ ap (λ b. parsed b (c ∷ s)) h)

pub args_size-positive : (xs : List Argument) → 0 < args_size xs
args_size-positive [] = omega arith
args_size-positive (x ∷ xs) = omega arith

-- The round for one word, given what the redirections and the rounds behind it give.
args_round :
    (w next tail s : List ℕ) (n argc : ℕ) (rs more : List Redir) (ws : List (List ℕ))
    → is_word w ≡ true
    → starts next ≡ true
    → argc + 1 < maxargs
    → parseredirs n next ≡ parsed rs tail
    → parseargs n (argc + 1) tail ≡ parsed (ws, more) s
    → parseargs (suc n) argc (w ++ 32 ∷ next) ≡ parsed (w ∷ ws, rs ++ more) s
unfolding parseargs
args_round w next tail s n argc rs more ws o st k e1 e2 =
    let all = w ++ 32 ∷ next in
    let few : leb maxargs (argc + 1) ≡ false = ground arith in
    let go_on : Parser (List (List ℕ) × List Redir) =
      parseredirs n
      >>= (λ redirs. parseargs n (argc + 1) >>= (λ p. pure (w ∷ p.0, redirs ++ p.1))) in
    let rest : (if leb maxargs (argc + 1) then panic else go_on) next
        ≡ parsed (w ∷ ws, rs ++ more) s =
      rw few (
        bind-parsed (parseredirs n) _ next tail rs e1
        ∙ bind-parsed (parseargs n (argc + 1)) (λ p. pure (w ∷ p.0, rs ++ p.1)) tail s (ws, more)
            e2) in
    bind-parsed (peek (codes "|)&;")) _ all all false (
      peek-starts (codes "|)&;") all (starts-word w (32 ∷ next) o)
      ∙ ap (λ b. parsed b all) (symbols-word (codes "|)&;") w (32 ∷ next) o stop_symbol))
    ∙ bind-parsed token _ all next (b'a', w) (token_lem all w next b'a' (gettoken-word w next o st))
    ∙ rest

pub parseargs-show_args :
    (xs : List Argument) (n argc : ℕ) (s : List ℕ)
    → args_ok xs ≡ true
    → starts s ≡ true
    → stops s ≡ true
    → args_size xs ≤ n
    → argc + length xs < maxargs
    → parseargs n argc (show_args xs s) ≡ parsed (args_words xs, args_redirs xs) s
parseargs-show_args [] zero argc s ok g h l k = absurd (omega arith)
parseargs-show_args (x ∷ xs) zero argc s ok g h l k = absurd (omega arith)
parseargs-show_args [] (suc n) argc s ok g h l k = parseargs-none n argc s g h
parseargs-show_args ((w, rs) ∷ xs) (suc n) argc s ok g h l k =
    let (os, oks) = and_parts (is_word w && names_ok rs) (args_ok xs) ok in
    let (o, names) = and_parts (is_word w) (names_ok rs) os in
    let tail = show_args xs s in
    let st = starts-show_args xs s oks g in
    args_round w (show_redirs rs tail) tail s n argc (map redir_cmd rs) (args_redirs xs)
      (args_words xs) o (starts-show_redirs rs tail st) (omega arith)
      (parseredirs-show_redirs rs n tail names st (show_args-angle xs s oks h)
        (omega (arith, args_size-positive xs)))
      (parseargs-show_args xs n (argc + 1) s oks g h (omega arith) (omega arith))

pub starts-show_backs : (k : ℕ) (s : List ℕ) → starts s ≡ true → starts (show_backs k s) ≡ true
starts-show_backs zero s h = h
starts-show_backs (suc k) s h = refl

pub parsebacks-show_backs :
    (k n : ℕ) (c : Cmd) (s : List ℕ)
    → starts s ≡ true
    → starts_with (codes "&") s ≡ false
    → k < n
    → parsebacks n c (show_backs k s) ≡ parsed (backs k c) s
unfolding parsebacks
parsebacks-show_backs k zero c s g h l = absurd (omega arith)
parsebacks-show_backs zero (suc n) c s g h l =
    bind-parsed (peek (codes "&")) _ s s false
      (peek-starts (codes "&") s g ∙ ap (λ b. parsed b s) h)
parsebacks-show_backs (suc k) (suc n) c s g h l =
    let next = show_backs k s in
    let all = b'&' ∷ next in
    bind-parsed (peek (codes "&")) _ all all true (peek-starts (codes "&") all refl)
    ∙ bind-parsed token _ all next (b'&', b'&' ∷ [])
        (token_lem all (b'&' ∷ []) next b'&'
          (gettoken-symbol b'&' next refl refl refl (starts-show_backs k s g)))
    ∙ parsebacks-show_backs k n (backcmd c) s g h (omega arith)
