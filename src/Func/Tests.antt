-- ===== src/Func/Tests.antt =====
-- `write_reply` and `trim` on short texts.
use aoq.Prelude.{◌≡◌, refl, inl, inr, some, [], ◌∷◌, arith, replicate}
use aoq.Heap.{ok, fault, stuck}
use aoq.Func.{
  taken, refused, received, again, last_byte, read_cmd, leading, cut_end, trim, write_reply,
}
use aoq.Func.ReadCmd.{read_cmd-Brings, read_cmd-waits}
use aoq.Func.Write.{write_reply-Takes}

-- Three bytes go out in two calls, and the fourth is not asked for; with a call that is refused between them,
-- the second byte goes out twice.
write_reply-Takes_example :
    (write_reply (taken 2 ∷ taken 1 ∷ []) (5 ∷ 6 ∷ 7 ∷ 8 ∷ []) 3 ≡ ok (5 ∷ 6 ∷ 7 ∷ []))
    × (write_reply (taken 2 ∷ refused ∷ taken 2 ∷ []) (5 ∷ 6 ∷ 7 ∷ 8 ∷ []) 3
        ≡ ok (5 ∷ 6 ∷ 6 ∷ 7 ∷ []))
    × (write_reply (refused ∷ taken 3 ∷ []) (5 ∷ 6 ∷ 7 ∷ 8 ∷ []) 3 ≡ fault)
write_reply-Takes_example =
    write_reply-Takes (2 ∷ 1 ∷ []) (2 ∷ []) (2 ∷ []) (taken 3 ∷ []) (5 ∷ 6 ∷ 7 ∷ 8 ∷ []) 3 2
      (omega arith, omega arith, (omega arith, omega arith, refl)) (omega arith) (omega arith)
      (omega arith, omega arith, refl) (omega arith, omega arith, refl)

both_ends : trim (32 ∷ b'a' ∷ 32 ∷ 10 ∷ 0 ∷ []) 4 ≡ ok (b'a' ∷ 0 ∷ 0 ∷ 0 ∷ [])
unfolding trim leading cut_end
both_ends = refl

blanks : trim (32 ∷ 10 ∷ 0 ∷ []) 2 ≡ ok (0 ∷ [])
unfolding trim leading cut_end
blanks = refl

-- A command in two pieces, between which `read` has nothing.
read_cmd-Brings_example :
    read_cmd (received (b'a' ∷ []) ∷ again ∷ received (b'\n' ∷ []) ∷ [])
    ≡ ok (some (b'a' ∷ b'\n' ∷ []))
unfolding last_byte
read_cmd-Brings_example =
    read_cmd-Brings (received (b'a' ∷ []) ∷ again ∷ received (b'\n' ∷ []) ∷ []) (b'a' ∷ b'\n' ∷ [])
      (inr (b'a', refl, omega arith, inl (refl, refl))) (omega arith)

read_cmd-waits_example : read_cmd (received (b'a' ∷ []) ∷ replicate 7 again) ≡ stuck
unfolding last_byte
read_cmd-waits_example = read_cmd-waits b'a' [] b'a' 7 refl (omega arith) (omega arith)
