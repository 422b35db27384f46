-- ===== src/Rpc/Buffer/Patch.antt =====
-- Space that is reserved for a header and written when what follows is known.
use elio.Prelude.{
  ℕ, zero, suc, ◌+◌, ◌^◌, ◌<◌, ◌≡◌, refl, List, ◌++◌, length, take, drop, arith, append_assoc,
  length-append, take_all, drop_all, ap, sym, ◌∙◌, subst,
}
use elio.Rpc.Buffer.{reserve_space, zeros, write_at, write, wrote}

length-zeros : (n : ℕ) → length (zeros n) ≡ n
unfolding zeros
length-zeros zero = refl
length-zeros (suc n) = omega (arith, length-zeros n)

drop_two :
    (before middle after : List ℕ)
    → drop (length before + length middle) ((before ++ middle) ++ after) ≡ after
drop_two before middle after =
    ap (λ n. drop n ((before ++ middle) ++ after)) (sym (length-append before middle))
    ∙ drop_all (before ++ middle) after

take_first :
    (before middle after : List ℕ) → take (length before) ((before ++ middle) ++ after) ≡ before
take_first before middle after =
    ap (take (length before)) (append_assoc before middle after) ∙ take_all before (middle ++ after)

-- A word written into the space that was reserved for it gives the bytes that writing it at once
-- would have given, whatever was written behind it, in fewer than 2 ^ 64 bytes.
pub write_at-reserve_space :
    (k value : ℕ) (w later : List ℕ)
    → length ((reserve_space k w).1 ++ later) < 2 ^ 64
    → write_at k (reserve_space k w).0 value ((reserve_space k w).1 ++ later)
      ≡ wrote (write k value w ++ later)
unfolding write_at reserve_space write
write_at-reserve_space k value w later h =
    let size = length-append (w ++ zeros k) later in
    let size' = length-append w (zeros k) in
    let front = take_first w (zeros k) later in
    let back =
      subst (λ n. drop (length w + n) ((w ++ zeros k) ++ later) ≡ later) (length-zeros k)
        (drop_two w (zeros k) later) in
    ground (arith, length-zeros k, size, size', front, back)
