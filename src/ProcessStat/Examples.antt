-- ===== src/ProcessStat/Examples.antt =====
-- A mapping of 0x1f bytes, writable and without a name but for "x".
use async_thrift.Prelude.{◌≡◌, refl, [], ◌∷◌, ◌++◌, map, some, arith}
use async_thrift.ProcessStat.{Mapped, scan_line, starts_with, skip_whitespace}
use async_thrift.ProcessStat.Hex.{hex_digit}
use async_thrift.ProcessStat.Line.{after_range, scan_line-mapping}

abbrev nothing : Mapped
nothing = record { mapped_rw = 0; mapped_ro = 0 }

scan_line-mapping_example :
    scan_line
      (map hex_digit (1 ∷ 0 ∷ [])
        ++ 45
          ∷ (map hex_digit (2 ∷ 15 ∷ [])
              ++ 32
                ∷ after_range b'r' b'w' 45 b'p'
                    (48 ∷ [])
                    (48 ∷ [])
                    (48 ∷ [])
                    2
                    (b'x' ∷ 10 ∷ 0 ∷ [])))
      nothing
    ≡ some (record { mapped_rw = 31; mapped_ro = 0 })
unfolding starts_with
scan_line-mapping_example =
    scan_line-mapping 1 (0 ∷ []) (2 ∷ 15 ∷ []) b'r' b'w' 45 b'p' (48 ∷ []) (48 ∷ []) (48 ∷ []) 2
      b'x' (10 ∷ 0 ∷ []) nothing (omega arith) (omega arith) (omega arith) (omega arith)
      (refl, (refl, (refl, (refl, tt)))) (refl, tt) (refl, tt) (refl, tt) refl refl

-- The end of a text counts as a blank, and what the buffer had behind it is read.
end_is_space : skip_whitespace (10 ∷ 0 ∷ b'x' ∷ []) ≡ some (b'x' ∷ [])
unfolding skip_whitespace
end_is_space = refl
