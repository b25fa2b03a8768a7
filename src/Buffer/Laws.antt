-- ===== src/Buffer/Laws.antt =====
-- Writes to a buffer, one behind the other.
use exim_fuzzer.Base.{
  ℕ, suc, ◌+◌, ◌-◌, ◌≤◌, ◌<◌, ◌≡◌, refl, sym, ap, ◌∙◌, true, none, some, [], ◌∷◌, ◌++◌, ◌==◌,
  append_assoc, Bytes, append-nil, length, take, drop, min, arith, le→leb, ==_iff, length-append,
  drop-length-append, take-length-append,
}
use exim_fuzzer.Vec.{range}
use exim_fuzzer.Buffer.{copy_into, overwrite}

-- A write behind the first `length done` bytes of the buffer.
pub copy_into-append :
    (done old src rest : Bytes) (a b : ℕ)
    → length old ≡ length src
    → a ≡ length done
    → b ≡ length done + length src
    → copy_into (done ++ (old ++ rest)) (range a b) src ≡ some (done ++ (src ++ rest))
unfolding copy_into
copy_into-append done old src rest a b same ea eb =
    let lens : length (done ++ (old ++ rest)) ≡ length done + (length src + length rest) =
      omega (arith, length-append done (old ++ rest), length-append old rest) in
    let e1 = le→leb a b (omega arith) in
    let e2 = le→leb b (length (done ++ (old ++ rest))) (omega arith) in
    let e3 : (b - a == length src) ≡ true = (==_iff (b - a) (length src)).1 (omega arith) in
    let front : take a (done ++ (old ++ rest)) ≡ done =
      rw ea (take-length-append done (old ++ rest)) in
    let regroup : done ++ (old ++ rest) ≡ (done ++ old) ++ rest =
      sym (append_assoc done old rest) in
    let eb' : b ≡ length (done ++ old) = omega (arith, length-append done old) in
    let back : drop b (done ++ (old ++ rest)) ≡ rest =
      rw (regroup, eb') (drop-length-append (done ++ old) rest) in
    rw (e1, e2, e3, front, back)

pub length-overwrite : (buf src : Bytes) → length (overwrite buf src) ≡ length buf
length-overwrite [] src = refl
length-overwrite (b ∷ buf) [] = refl
length-overwrite (b ∷ buf) (x ∷ src) = ap suc (length-overwrite buf src)

-- Writing two texts one behind the other is writing the first, as far as it fits, and then the
-- second to the rest of the buffer.
pub overwrite-append :
    (buf d t : Bytes)
    → overwrite buf (d ++ t)
      ≡ take (min (length buf) (length d)) d ++ overwrite (drop (min (length buf) (length d)) buf) t
overwrite-append [] d t = let e : min 0 (length d) ≡ 0 = omega arith in rw e
overwrite-append (b ∷ buf) [] t = let e : min (suc (length buf)) 0 ≡ 0 = omega arith in rw e
overwrite-append (b ∷ buf) (x ∷ d) t =
    let e : min (suc (length buf)) (suc (length d)) ≡ suc (min (length buf) (length d)) =
      omega arith in
    rw e (ap (◌∷◌ x) (overwrite-append buf d t))

pub overwrite-fits :
    (buf src : Bytes) → length src ≤ length buf → overwrite buf src ≡ src ++ drop (length src) buf
overwrite-fits [] [] h = refl
overwrite-fits [] (x ∷ src) h = absurd (omega arith)
overwrite-fits (b ∷ buf) [] h = refl
overwrite-fits (b ∷ buf) (x ∷ src) h = ap (◌∷◌ x) (overwrite-fits buf src (omega arith))

pub overwrite-nil : (buf : Bytes) → overwrite buf [] ≡ buf
overwrite-nil [] = refl
overwrite-nil (b ∷ buf) = refl

pub overwrite-take :
    (buf src : Bytes)
    → overwrite buf src
      ≡ take (min (length buf) (length src)) src ++ drop (min (length buf) (length src)) buf
overwrite-take buf src =
    let n = min (length buf) (length src) in
    ap (overwrite buf) (sym (append-nil src))
    ∙ overwrite-append buf src []
    ∙ ap (λ r. take n src ++ r) (overwrite-nil (drop n buf))

-- A write that ends behind the end of the buffer is a panic.
pub copy_into-overflow :
    (buf : Bytes) (a b : ℕ) (src : Bytes) → length buf < b → copy_into buf (range a b) src ≡ none
unfolding copy_into
copy_into-overflow buf a b src h = ground arith
