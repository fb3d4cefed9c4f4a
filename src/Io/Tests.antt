-- ===== src/Io/Tests.antt =====
-- src/io.c: runs of `readline` and `writen`.
use netvizd.Common.{◌≡◌, refl, [], ◌∷◌, some, arith}
use netvizd.Common.Int.{pos}
use netvizd.Common.Text.{codes}
use netvizd.Io.{chunk, interrupted, Reader, readline, wrote, write_interrupted, writen}
use netvizd.Io.Readn.{readn, readn-slips}
use netvizd.Io.Lines.{IsSteady, pending, next_line, ret_of, readline-next_line, writen-all}

abbrev cut_up : Reader
cut_up = record {
  rl_buf = codes "fe";
  answers = chunk (codes "tch") ∷ interrupted ∷ chunk (codes "\nqu") ∷ chunk (codes "it") ∷ [];
}

fetch-read : (readline 100 cut_up).0 ≡ record { stored = codes "fetch\n"; ret = pos 6 }
unfolding readline
fetch-read = refl

-- The input ends without a newline: four characters are stored, and 5 is returned.
quit-read : (readline 100 (readline 100 cut_up).1).0 ≡ record { stored = codes "quit"; ret = pos 5 }
unfolding readline
quit-read = refl

readline-next_line_example :
    ((readline 100 cut_up).0.stored ≡ (next_line 99 (pending cut_up)).0)
    × (pending (readline 100 cut_up).1 ≡ (next_line 99 (pending cut_up)).1)
    × IsSteady (readline 100 cut_up).1.answers
    × ((readline 100 cut_up).0.ret ≡ pos (ret_of 99 (pending cut_up)))
readline-next_line_example = readline-next_line 100 cut_up (omega arith) tt

writen-all_example :
    writen (codes "bye") (wrote 0 ∷ write_interrupted ∷ wrote 1 ∷ wrote 0 ∷ [])
    ≡ (some (pos 3), codes "bye")
writen-all_example =
    writen-all (codes "bye") (wrote 0 ∷ write_interrupted ∷ wrote 1 ∷ wrote 0 ∷ []) (omega arith)

-- A signal at the start of `readn`: 3 characters are stored from one place before the buffer.
readn-slips_example :
    readn 8 (interrupted ∷ chunk (codes "abc") ∷ [])
    ≡ (pos 2, (18446744073709551615, codes "abc") ∷ [])
readn-slips_example = readn-slips 8 interrupted 97 (codes "bc") tt (omega arith) (omega arith)

readn-stored :
    readn 4 (chunk (codes "abc") ∷ chunk (codes "def") ∷ [])
    ≡ (pos 4, (0, codes "abc") ∷ (3, codes "d") ∷ [])
unfolding readn
readn-stored = refl
