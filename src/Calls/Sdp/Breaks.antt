-- ===== src/Calls/Sdp/Breaks.antt =====
-- packages/client-web/src/lib/webrtc-manager.ts: the lines that `optimizeAudioSdp` splits a description into.
-- Texts without a line break are joined and split again without loss.
use genchat.Base.{
  ℕ, ◌≡◌, refl, ap, ◌∙◌, Bool, false, ◌&&◌, List, [], ◌∷◌, ◌++◌, All, nat_eq, inl, inr, Bool-cases,
  arith,
}
use genchat.Calls.Sdp.{Text, split_lines, join_lines, begin}

abbrev pub crlf : ℕ → ℕ → Bool
crlf c d = nat_eq c 13 && nat_eq d 10

abbrev pub NotBroken : ℕ → Text → Type 0
NotBroken c [] = Unit
NotBroken c (d ∷ s) = crlf c d ≡ false

-- A text without a line break.
abbrev pub IsLine : Text → Type 0
IsLine [] = Unit
IsLine (c ∷ s) = NotBroken c s × IsLine s

split_lines-append :
    (l s : Text) → IsLine l → split_lines (l ++ (13 ∷ (10 ∷ s))) ≡ l ∷ split_lines s
unfolding split_lines
split_lines-append [] s h = refl
split_lines-append (c ∷ []) s h = ground arith
split_lines-append (c ∷ (d ∷ l)) s (h, hs) = rw (h, split_lines-append (d ∷ l) s hs) refl

split_lines-line : (l : Text) → IsLine l → split_lines l ≡ l ∷ []
unfolding split_lines
split_lines-line [] h = refl
split_lines-line (c ∷ []) h = refl
split_lines-line (c ∷ (d ∷ l)) (h, hs) = rw (h, split_lines-line (d ∷ l) hs) refl

abbrev pub AreLines : List Text → Type 0
AreLines [] = ⊥
AreLines (l ∷ ls) = All IsLine (l ∷ ls)

pub split_lines-join_lines : (ls : List Text) → AreLines ls → split_lines (join_lines ls) ≡ ls
unfolding join_lines
split_lines-join_lines [] h = absurd h
split_lines-join_lines (l ∷ []) (h, hs) = split_lines-line l h
split_lines-join_lines (l ∷ (k ∷ ls)) (h, hs) =
    split_lines-append l (join_lines (k ∷ ls)) h
    ∙ ap (λ r. l ∷ r) (split_lines-join_lines (k ∷ ls) hs)

-- A line that is begun before these lines has no break where it meets the first of them.
abbrev Meets : ℕ → List Text → Type 0
Meets c [] = ⊥
Meets c (l ∷ ls) = NotBroken c l

begin-AreLines : (c : ℕ) (ls : List Text) → Meets c ls → AreLines ls → AreLines (begin c ls)
begin-AreLines c [] m h = absurd h
begin-AreLines c (l ∷ ls) m (h, hs) = ((m, h), hs)

Meets-begin : (c d : ℕ) (ls : List Text) → crlf c d ≡ false → Meets c (begin d ls)
Meets-begin c d [] h = h
Meets-begin c d (l ∷ ls) h = h

Meets-split_lines : (c d : ℕ) (s : Text) → crlf c d ≡ false → Meets c (split_lines (d ∷ s))
unfolding split_lines
Meets-split_lines c d [] h = h
Meets-split_lines c d (e ∷ s) h = elim (Bool-cases (crlf d e)) [
  | inl b ↦ rw b tt
  | inr b ↦ rw b (Meets-begin c d (split_lines (e ∷ s)) h)
]

AreLines-All : (ls : List Text) → AreLines ls → All IsLine ls
AreLines-All [] h = tt
AreLines-All (l ∷ ls) h = h

pub split_lines-AreLines : (s : Text) → AreLines (split_lines s)
unfolding split_lines
split_lines-AreLines [] = (tt, tt)
split_lines-AreLines (c ∷ []) = ((tt, tt), tt)
split_lines-AreLines (c ∷ (d ∷ s)) = elim (Bool-cases (crlf c d)) [
  | inl e ↦ rw e (tt, AreLines-All (split_lines s) (split_lines-AreLines s))
  | inr e ↦ rw e (
      begin-AreLines c (split_lines (d ∷ s)) (Meets-split_lines c d s e)
        (split_lines-AreLines (d ∷ s)))
]

-- A text without line feeds can stand behind a line.
abbrev pub NoFeed : Text → Type 0
NoFeed = All (λ c. nat_eq c 10 ≡ false)

pub NoFeed-IsLine : (s : Text) → NoFeed s → IsLine s
NoFeed-IsLine [] h = tt
NoFeed-IsLine (c ∷ []) h = (tt, tt)
NoFeed-IsLine (c ∷ (d ∷ s)) (h, (hs, hss)) = (ground arith, NoFeed-IsLine (d ∷ s) (hs, hss))

pub IsLine-append : (l s : Text) → IsLine l → NoFeed s → IsLine (l ++ s)
IsLine-append [] s h n = NoFeed-IsLine s n
IsLine-append (c ∷ []) [] h n = h
IsLine-append (c ∷ []) (d ∷ s) h (n, ns) = (ground arith, NoFeed-IsLine (d ∷ s) (n, ns))
IsLine-append (c ∷ (d ∷ l)) s (h, hs) n = (h, IsLine-append (d ∷ l) s hs n)

IsLine-append_right : (l s : Text) → IsLine (l ++ s) → IsLine s
IsLine-append_right [] s h = h
IsLine-append_right (c ∷ l) s h = IsLine-append_right l s h.1
