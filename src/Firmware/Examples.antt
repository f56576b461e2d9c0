-- ===== src/Firmware/Examples.antt =====
-- The theorem on the reader at a concrete input, over a task whose memory holds a word per address.
use airfrog.Prelude.{ℕ, zero, suc, ◌+◌, ◌≡◌, refl, arith, List, [], ◌∷◌, take, drop}
use airfrog.Bin.Error.{ok}
use airfrog.Target.HexText.{format_word}
use airfrog.Target.Types.{Command, Response, default}
use airfrog.Firmware.{aligned_down, word_count, read}
use airfrog.Firmware.Reading.{le_bytes, words_answer, read-le_bytes}

-- The words at `0x20000000` and after it; the state counts the requests.
abbrev words : ℕ → List ℕ
words zero = []
words (suc n) = (0x0403_0201 + n) ∷ words n

abbrev memory_task : Command → ℕ → Response × ℕ
memory_task (Command.read_mem_bulk _ count) requests = (words_answer (words count), suc requests)
memory_task _ requests = (default, suc requests)

abbrev five_bytes : List ℕ
five_bytes = 0 ∷ 0 ∷ 0 ∷ 0 ∷ 0 ∷ []

two_words : 2 ≡ word_count 0x2000_0003 5
unfolding word_count
two_words = refl

two_words_answered :
    memory_task
      (Command.read_mem_bulk (format_word (aligned_down 0x2000_0003)) (word_count 0x2000_0003 5))
      0
    ≡ (words_answer (0x0403_0202 ∷ 0x0403_0201 ∷ []), 1)
unfolding word_count
two_words_answered = refl

read-le_bytes_example :
    read memory_task 0x2000_0003 five_bytes 0
    ≡ ((ok tt, take 5 (drop 3 (le_bytes (0x0403_0202 ∷ 0x0403_0201 ∷ [])))), 1)
read-le_bytes_example =
    read-le_bytes memory_task 0x2000_0003 five_bytes (0x0403_0202 ∷ 0x0403_0201 ∷ []) 0 1
      (omega arith) (omega arith, (omega arith, tt)) two_words two_words_answered
