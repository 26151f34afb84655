-- ===== src/Kernel/Fs/Blocks.antt =====
-- The blocks of an inode, `bmap` and `balloc` of xv6/kernel/fs.c.
use ru_shell.Base.{
  Bool, Bool-cases, Option-cases, ap, arith, false, inl, inr, none, refl, some, suc, true, zero, ℕ,
  ◌+◌, ◌<◌, ◌==◌, ◌∙◌, ◌≡◌, ◌≤◌, ◌⊎◌,
}
use ru_shell.Kernel.Exec.{◌>>=◌}
use ru_shell.Kernel.Fs.{
  Dinode, Fs, Inode, addr_or_new, balloc, bzero, first_free, put, set_addr, word_or_new,
}
pub mod Again

-- No block of the disk is free.
unfoldable pub IsFull : Fs → Type 0
IsFull fs = (b : ℕ) → b < fs.sb.size → fs.used b ≡ true

-- The state in which `balloc` has taken a block.
abbrev pub taken : ℕ → Fs → Fs
taken b fs = record fs {
  used = put b true fs.used;
  bytes = put b (λ _. 0) fs.bytes;
  words = put b (λ _. 0) fs.words;
}

first_free-IsFree : (used : ℕ → Bool) (b n c : ℕ) → first_free used b n ≡ some c → used c ≡ false
unfolding first_free
first_free-IsFree used b zero c h = absurd (cc h)
first_free-IsFree used b (suc n) c h = elim (Bool-cases (used b)) [
  | inl w ↦ first_free-IsFree used (b + 1) n c (rw (← h, w) refl)
  | inr w ↦
      let got : first_free used b (suc n) ≡ some b = rw (w, first_free) refl in
      let same : b ≡ c = cc (got, h) in rw (← same) w
]

first_free-IsFull :
    (used : ℕ → Bool) (b n c : ℕ) → first_free used b n ≡ none → b ≤ c → c < b + n → used c ≡ true
unfolding first_free
first_free-IsFull used b zero c h l u = absurd (omega (arith, l, u))
first_free-IsFull used b (suc n) c h l u = elim (Bool-cases (used b)) [
  | inr w ↦
      let got : first_free used b (suc n) ≡ some b = rw (w, first_free) refl in absurd (cc (got, h))
  | inl w ↦ elim (Bool-cases (c == b)) [
    | inl e ↦ ground (arith, w, e)
    | inr e ↦
        first_free-IsFull used (b + 1) n c (rw (← h, w, first_free) refl) (ground (arith, l, e))
          (omega (arith, u))
  ]
]

-- What `balloc` does where block 0 is in use: the disk is full, or it takes a block that was free.
balloc-cases :
    (fs : Fs)
    → fs.used 0 ≡ true
    → ((balloc fs ≡ some (0, fs)) × IsFull fs)
      ⊎ ((b : ℕ) × (balloc fs ≡ some (b, taken b fs)) × (fs.used b ≡ false) × ((b == 0) ≡ false))
unfolding IsFull balloc
balloc-cases fs boot = elim (Option-cases (first_free fs.used 0 fs.sb.size)) [
  | inl e ↦ inl (
    rw (e, balloc) refl,
    λ b l. first_free-IsFull fs.used 0 fs.sb.size b e (omega arith) (omega (arith, l)),
  )
  | inr (b, e) ↦
      let free = first_free-IsFree fs.used 0 fs.sb.size b e in
      inr (b, rw (e, balloc, bzero) refl, free, not_boot fs b boot free)
]
  where
    not_boot : (fs : Fs) (b : ℕ) → fs.used 0 ≡ true → fs.used b ≡ false → (b == 0) ≡ false
    not_boot fs b boot free = elim (Bool-cases (b == 0)) [
      | inl e ↦ ground (arith, e, boot, free)
      | inr e ↦ e
    ]

pub put_here : {A : Type 0} → (b : ℕ) (x : A) (f : ℕ → A) → put b x f b ≡ x
put_here b x f = ground arith

pub addr_or_new-cases :
    (ip : Inode) (i : ℕ) (fs : Fs)
    → fs.used 0 ≡ true
    → ((addr_or_new ip i fs ≡ some ((0, ip), fs)) × IsFull fs)
      ⊎ ((ip.body.addrs i == 0) ≡ false)
      ⊎ ((b : ℕ) × (addr_or_new ip i fs ≡ some ((b, set_addr ip i b), taken b fs))
          × (fs.used b ≡ false)
          × ((b == 0) ≡ false))
unfolding addr_or_new
addr_or_new-cases ip i fs boot = elim (Bool-cases (ip.body.addrs i == 0)) [
  | inr w ↦ inr (inl w)
  | inl w ↦ elim (balloc-cases fs boot) [
    | inl (e, full) ↦ inl (rw (w, addr_or_new, ◌>>=◌, e) refl, full)
    | inr (b, e, free, nonzero) ↦
        inr (inr (b, rw (w, addr_or_new, ◌>>=◌, e, nonzero) refl, free, nonzero))
  ]
]

-- The state in which an indirect block has got an entry.
abbrev pub linked : ℕ → ℕ → ℕ → Fs → Fs
linked table i b fs = record fs { words = put table (put i b (fs.words table)) fs.words }

pub word_or_new-cases :
    (table i : ℕ) (fs : Fs)
    → fs.used 0 ≡ true
    → ((word_or_new table i fs ≡ some (0, fs)) × IsFull fs)
      ⊎ ((fs.words table i == 0) ≡ false)
      ⊎ ((b : ℕ) × (word_or_new table i fs ≡ some (b, linked table i b (taken b fs)))
          × (fs.used b ≡ false)
          × ((b == 0) ≡ false))
unfolding word_or_new
word_or_new-cases table i fs boot = elim (Bool-cases (fs.words table i == 0)) [
  | inr w ↦ inr (inl w)
  | inl w ↦ elim (balloc-cases fs boot) [
    | inl (e, full) ↦ inl (rw (w, word_or_new, ◌>>=◌, e) refl, full)
    | inr (b, e, free, nonzero) ↦
        inr (inr (b, rw (w, word_or_new, ◌>>=◌, e, nonzero) refl, free, nonzero))
  ]
]

pub addr_or_new-again :
    (ip : Inode) (i : ℕ) (fs : Fs)
    → (ip.body.addrs i == 0) ≡ false
    → addr_or_new ip i fs ≡ some ((ip.body.addrs i, ip), fs)
unfolding addr_or_new
addr_or_new-again ip i fs w = rw (w, addr_or_new) refl

pub word_or_new-again :
    (table i : ℕ) (fs : Fs)
    → (fs.words table i == 0) ≡ false
    → word_or_new table i fs ≡ some (fs.words table i, fs)
unfolding word_or_new
word_or_new-again table i fs w = rw (w, word_or_new) refl

-- An inode whose size has changed.
abbrev pub resized : ℕ → Inode → Inode
resized size ip = record ip { body = record ip.body { size = size } }

-- An entry of `addrs` behind `addr_or_new`.
pub set_addr-again :
    (ip : Inode) (i b size : ℕ) (fs : Fs)
    → (b == 0) ≡ false
    → addr_or_new (resized size (set_addr ip i b)) i fs
      ≡ some ((b, resized size (set_addr ip i b)), fs)
set_addr-again ip i b size fs nonzero =
    let here = put_here i b ip.body.addrs in
    addr_or_new-again (resized size (set_addr ip i b)) i fs (rw here nonzero)
    ∙ ap (λ x. some ((x, resized size (set_addr ip i b)), fs)) here

-- A file system behind changes of the content of blocks and of the inodes on the disk.
abbrev pub later : (ℕ → ℕ → ℕ) → (ℕ → Dinode) → Fs → Fs
later content inodes fs = record fs { bytes = content; dinodes = inodes }

pub linked-again :
    (table i b : ℕ) (fs : Fs) (content : ℕ → ℕ → ℕ) (inodes : ℕ → Dinode)
    → (b == 0) ≡ false
    → word_or_new table i (later content inodes (linked table i b fs))
      ≡ some (b, later content inodes (linked table i b fs))
linked-again table i b fs content inodes nonzero =
    let here : put table (put i b (fs.words table)) fs.words table i ≡ b =
      ap (λ f. f i) (put_here table (put i b (fs.words table)) fs.words)
      ∙ put_here i b (fs.words table) in
    word_or_new-again table i (later content inodes (linked table i b fs)) (rw here nonzero)
    ∙ ap (λ x. some (x, later content inodes (linked table i b fs))) here
