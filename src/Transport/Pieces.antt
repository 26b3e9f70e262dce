-- ===== src/Transport/Pieces.antt =====
-- What a buffer of the v1 reader of observer/src/transport.rs gets of a stream, whatever pieces it
-- comes in.
use p2p_observer.Common.{
  ℕ, zero, suc, ◌+◌, ◌-◌, ◌≤◌, ◌≡◌, refl, sym, ap, ◌∙◌, true, false, List, [], ◌∷◌, ◌++◌, arith,
  leb, length, length-append, take, ltb, Bool-cases, inl, inr,
}
use p2p_observer.PeerAddr.{octet}
use p2p_observer.Transport.{full, prepend, drop, fill, same_octets}

-- The octets of a socket's segments.
abbrev pub joined : List (List ℕ) → List ℕ
joined [] = []
joined (seg ∷ segments) = seg ++ joined segments

pub take_front : (n : ℕ) (xs ys : List ℕ) → length xs ≡ n → take n (xs ++ ys) ≡ xs
take_front zero [] ys e = refl
take_front zero (x ∷ xs) ys e = absurd (omega (arith, e))
take_front (suc n) [] ys e = absurd (omega (arith, e))
take_front (suc n) (x ∷ xs) ys e = ap (λ zs. x ∷ zs) (take_front n xs ys (omega (arith, e)))

pub drop_front : (n : ℕ) (xs ys : List ℕ) → length xs ≡ n → drop n (xs ++ ys) ≡ ys
drop_front zero [] ys e = refl
drop_front zero (x ∷ xs) ys e = absurd (omega (arith, e))
drop_front (suc n) [] ys e = absurd (omega (arith, e))
drop_front (suc n) (x ∷ xs) ys e = drop_front n xs ys (omega (arith, e))

pub octet_past : (xs ys : List ℕ) (i j : ℕ) → j ≡ length xs + i → octet (xs ++ ys) j ≡ octet ys i
octet_past [] ys i j e = ap (octet ys) (omega (arith, e))
octet_past (x ∷ xs) ys i zero e = absurd (omega (arith, e))
octet_past (x ∷ xs) ys i (suc j) e = octet_past xs ys i j (omega (arith, e))

pub same_octets_refl : (xs : List ℕ) → same_octets xs xs ≡ true
same_octets_refl [] = refl
same_octets_refl (x ∷ xs) = ground (arith, same_octets_refl xs)

pub within : (n limit : ℕ) → n ≤ limit → ltb limit n ≡ false
within n limit h = ground (arith, h)

pub whole : (n : ℕ) → n - length {A = ℕ} [] ≡ n
whole n = omega arith

-- Of two ways to cut a list, the shorter front is a front of the longer one.
shorter_front :
    (xs ys bs rest : List ℕ)
    → xs ++ ys ≡ bs ++ rest
    → length xs ≤ length bs
    → (cs : List ℕ) × (bs ≡ xs ++ cs) × (ys ≡ cs ++ rest)
shorter_front [] ys bs rest e le = (bs, refl, e)
shorter_front (x ∷ xs) ys [] rest e le = absurd (omega (arith, le))
shorter_front (x ∷ xs) ys (b ∷ bs) rest e le =
    let r = shorter_front xs ys bs rest (cc e) (omega (arith, le)) in (r.0, cc (e, r.1), r.2)

pub fill-joined :
    (n : ℕ) (segments : List (List ℕ)) (bs rest : List ℕ)
    → joined segments ≡ bs ++ rest
    → length bs ≡ n
    → (left : List (List ℕ)) × (fill n segments ≡ full bs left) × (joined left ≡ rest)
unfolding fill
fill-joined zero segments [] rest e len = (segments, refl, e)
fill-joined zero segments (b ∷ bs) rest e len = absurd (omega (arith, len))
fill-joined (suc n) segments [] rest e len = absurd (omega (arith, len))
fill-joined (suc n) [] (b ∷ bs) rest e len = absurd (cc e)
fill-joined (suc n) (seg ∷ segments) (b ∷ bs) rest e len =
    elim (Bool-cases (leb (length seg) (suc n))) [
      | inl fits ↦
          let r = shorter_front seg (joined segments) (b ∷ bs) rest e (ground (arith, len)) in
          let q =
            fill-joined (suc n - length seg) segments r.0 rest r.2
              (omega (arith, len, ap length r.1, length-append seg r.0)) in
          (q.0, rw (fits, fill) (ap (prepend seg) q.1 ∙ ap (λ cs. full cs q.0) (sym r.1)), q.2)
      | inr over ↦
          let r = shorter_front (b ∷ bs) rest seg (joined segments) (sym e) (ground (arith, len)) in
          (
            r.0 ∷ segments,
            rw (over, fill)
                (ap (λ cs. full (take (suc n) cs) (drop (suc n) cs ∷ segments)) r.1
                  ∙ ap (λ cs. full cs (drop (suc n) ((b ∷ bs) ++ r.0) ∷ segments))
                      (take_front (suc n) (b ∷ bs) r.0 len)
                  ∙ ap (λ cs. full (b ∷ bs) (cs ∷ segments)) (drop_front (suc n) (b ∷ bs) r.0 len)),
            sym r.2,
          )
    ]
