-- ===== src/Conn/Buffer.antt =====
-- The receive buffer: what resizing and storing do to the bytes received so far.
use async_thrift.Prelude.{
  ℕ, zero, suc, ◌+◌, ◌-◌, ◌≤◌, ◌≡◌, refl, sym, ap, ◌∙◌, subst, List, [], ◌∷◌, ◌++◌, arith, length,
  take, drop, replicate, length-append, length-replicate, length-take, length-drop, take-append_le,
  take-take, take-append_len,
}
use async_thrift.Conn.{resize, write_at, get_frame_size, fresh_buffer, buffer_capacity}

module _ {ℓ} {A : Type ℓ} where
  pub length-resize : (fill : A) (n : ℕ) (xs : List A) → length (resize fill n xs) ≡ n
  unfolding resize
  length-resize fill n xs = length-append (take n xs) (replicate (n - length xs) fill) ∙ filled n xs
    where
      filled :
          (n : ℕ) (xs : List A) → length (take n xs) + length (replicate (n - length xs) fill) ≡ n
      filled zero xs = omega (arith, length-replicate (0 - length xs) fill)
      filled (suc n) [] = omega (arith, length-replicate (suc n - 0) fill)
      filled (suc n) (x ∷ xs) = omega (
        arith,
        filled n xs,
        length-replicate (n - length xs) fill,
        length-replicate (suc n - suc (length xs)) fill,
      )

  -- Growing, or cutting behind position `k`, keeps the first `k` entries.
  pub take-resize :
      (fill : A) (k n : ℕ) (xs : List A)
      → k ≤ n
      → k ≤ length xs
      → take k (resize fill n xs) ≡ take k xs
  unfolding resize
  take-resize fill k n xs h h' =
      take-append_le k (take n xs) _ (fits n xs k h h') ∙ take-take k n xs h
    where
      fits : (n : ℕ) (xs : List A) (k : ℕ) → k ≤ n → k ≤ length xs → k ≤ length (take n xs)
      fits zero xs k h h' = h
      fits (suc n) [] k h h' = h'
      fits (suc n) (x ∷ xs) zero h h' = omega arith
      fits (suc n) (x ∷ xs) (suc k) h h' = omega (arith, fits n xs k (omega arith) (omega arith))

  length-stored :
      (off : ℕ) (ys xs : List A) → off ≤ length xs → length (take off xs ++ ys) ≡ off + length ys
  length-stored off ys xs h = omega (arith, length-append (take off xs) ys, length-take off xs)

  pub length-write_at :
      (off : ℕ) (ys xs : List A)
      → off + length ys ≤ length xs
      → length (write_at off ys xs) ≡ length xs
  unfolding write_at
  length-write_at off ys xs h =
      length-append (take off xs ++ ys) (drop (off + length ys) xs)
      ∙ omega (arith, length-stored off ys xs, length-drop (off + length ys) xs)

  -- Storing behind the first `off` entries appends to them.
  pub take-write_at :
      (off : ℕ) (ys xs : List A)
      → off + length ys ≤ length xs
      → take (off + length ys) (write_at off ys xs) ≡ take off xs ++ ys
  unfolding write_at
  take-write_at off ys xs h =
      subst (λ n. take n ((take off xs ++ ys) ++ drop (off + length ys) xs) ≡ take off xs ++ ys)
        (length-stored off ys xs (omega arith))
        (take-append_len (take off xs ++ ys) (drop (off + length ys) xs))

-- The header is read off the first four bytes alone.
pub get_frame_size-take :
    (n : ℕ) (xs : List ℕ) → 4 ≤ n → get_frame_size (take n xs) ≡ get_frame_size xs
unfolding get_frame_size
get_frame_size-take (suc (suc (suc (suc n)))) [] h = refl
get_frame_size-take (suc (suc (suc (suc n)))) (a ∷ []) h = refl
get_frame_size-take (suc (suc (suc (suc n)))) (a ∷ b ∷ []) h = refl
get_frame_size-take (suc (suc (suc (suc n)))) (a ∷ b ∷ c ∷ []) h = refl
get_frame_size-take (suc (suc (suc (suc n)))) (a ∷ b ∷ c ∷ d ∷ xs) h = refl
get_frame_size-take zero xs h = absurd (omega arith)
get_frame_size-take (suc zero) xs h = absurd (omega arith)
get_frame_size-take (suc (suc zero)) xs h = absurd (omega arith)
get_frame_size-take (suc (suc (suc zero))) xs h = absurd (omega arith)

pub get_frame_size-append :
    (xs ys : List ℕ) → 4 ≤ length xs → get_frame_size (xs ++ ys) ≡ get_frame_size xs
get_frame_size-append xs ys h =
    sym (get_frame_size-take 4 (xs ++ ys) (omega arith))
    ∙ ap get_frame_size (take-append_le 4 xs ys h)
    ∙ get_frame_size-take 4 xs (omega arith)

pub get_frame_size-resize :
    (n : ℕ) (xs : List ℕ)
    → 4 ≤ n
    → 4 ≤ length xs
    → get_frame_size (resize 0 n xs) ≡ get_frame_size xs
get_frame_size-resize n xs h h' =
    sym (get_frame_size-take 4 (resize 0 n xs) (omega arith))
    ∙ ap get_frame_size (take-resize 0 4 n xs h h')
    ∙ get_frame_size-take 4 xs (omega arith)

pub length-fresh_buffer : length fresh_buffer ≡ 4096
unfolding fresh_buffer
length-fresh_buffer = length-replicate {A = ℕ} buffer_capacity 0
