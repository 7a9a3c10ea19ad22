-- ===== src/Parser/Head.antt =====
-- The two numbers at the front of a request.
use aoq.Prelude.{ℕ, ◌<◌, ◌≡◌, List, ◌++◌, arith}
use aoq.Prelude.Int.{pos}
use aoq.Heap.{ok, Heap}
use aoq.CText.Digits.{Stops, two_digits, atoi-two_digits}
use aoq.MemPool.{ChunkNode}
use aoq.Cursor.{Cursor, plus}
use aoq.Cursor.Text.{Ahead, read_bytes-Ahead, move_cursor-Ahead}
use aoq.Parser.{parse_head_len, parse_comman_num}

module _ (beyond : List ℕ) (stop : Stops beyond) (fuel : ℕ) (enough : 2 < fuel) (h : Heap ChunkNode)
    (c : Cursor) (n : ℕ) (small : n < 100) (rest : List ℕ)
    (text : Ahead h c.ptr (two_digits n ++ rest)) where
  pub parse_head_len-two_digits :
      parse_head_len beyond fuel h c ≡ ok (pos n, record c { ptr = plus (c.ptr) 2 })
  unfolding parse_head_len
  parse_head_len-two_digits = rw (
    read_bytes-Ahead h c.ptr (two_digits n) rest text,
    move_cursor-Ahead fuel h c (two_digits n) rest text (omega arith) enough,
    atoi-two_digits n beyond small stop,
  )

  pub parse_comman_num-two_digits :
      parse_comman_num beyond fuel h c ≡ ok (pos n, record c { ptr = plus (c.ptr) 2 })
  unfolding parse_comman_num
  parse_comman_num-two_digits = rw (
    read_bytes-Ahead h c.ptr (two_digits n) rest text,
    move_cursor-Ahead fuel h c (two_digits n) rest text (omega arith) enough,
    atoi-two_digits n beyond small stop,
  )
