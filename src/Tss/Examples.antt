-- ===== src/Tss/Examples.antt =====
-- Two servers, of which the first one tried does not open.
use async_thrift.Prelude.{ℕ, refl, [], ◌∷◌, Bool, none, arith, ◌==◌, not}
use async_thrift.Tss.{ThriftPoolTss, new_pool_tss, get, put}
use async_thrift.Tss.Clones.{OwnsAll, none_yet, next, gets, puts, Calls-OwnsAll}

abbrev opens : ℕ → Bool
opens client = not (client == 0)

abbrev got : ThriftPoolTss
got = record {
  pools = 5 ∷ 6 ∷ [];
  index = 3;
  connection = none;
  given = 1 ∷ [];
  deleted = 0 ∷ [];
  next = 2;
  tried = 5 ∷ 6 ∷ [];
}

Calls-OwnsAll_example : OwnsAll (put 1 got) none
unfolding new_pool_tss get
Calls-OwnsAll_example =
    Calls-OwnsAll (5 ∷ 6 ∷ [])
      (next (next none_yet (gets {q = got} 3 opens refl)) (puts 1 (omega arith)))
