-- ===== src/Rtt/Requests.antt =====
-- The requests that the RTT task of airfrog/src/firmware/rtt.rs makes: they leave the ring as it is.
use airfrog.Prelude.{
  ℕ, true, false, ◌+◌, ◌-◌, ◌/◌, ◌%◌, ◌^◌, ◌==◌, ◌<◌, ◌≡◌, refl, ◌∙◌, arith, ltb, ltb→lt, min, not,
  Bool-cases, inl, inr, if◌then◌else◌, [], ◌++◌, length, length-append,
}
use airfrog.Rtt.Task.{
  RttError, RttCb, RttBuf, Rtt, header_size, buf_size, u32_at, cb_from_location_bytes,
  get_up_buf_loc, buf_from_location_bytes, cur_read_loc, read_pos_field_loc, stop,
}
use airfrog.Rtt.Fetch.{
  TargetTask, Fault, Run, Machine, pure, fail, lifted, ok_or, bytes_of_words, aligned, sub, asking,
  current, updating, read_words, ◌>>=◌, ◌>>◌, read_bytes, read_word_at, write_word, get_rtt_cb,
  get_rtt_up_buf, start, started_with, restarted, gather, with_up_buf, tell,
}
use airfrog.Rtt.Asks.{
  Any, Asks, chain-Asks, pure-Asks, fail-Asks, lifted-Asks, ok_or-Asks, asking-Asks, if-Asks,
  sub-Asks, updating-Asks, current-Asks,
}

module _ (t : TargetTask) where
  read_words-Asks : (start count : ℕ) → Asks t Any (read_words t start count)
  unfolding read_words
  read_words-Asks start count =
      chain-Asks t Any Any (asking t (t.read_mem_bulk start count)) (ok_or RttError.no_data)
        (asking-Asks t _) (λ answer _. ok_or-Asks t _ answer)

  read_bytes-Asks : (location n : ℕ) → Asks t (λ l. length l ≡ n) (read_bytes t location n)
  unfolding read_bytes
  read_bytes-Asks location n = elim (Bool-cases (n == 0)) [
    | inl e ↦ let none_left : 0 ≡ n = ground arith in rw e (pure-Asks t _ [] none_left)
    | inr e ↦
        let first = aligned location in
        let count = (aligned ((location + n + 3) % 2 ^ 32) + 2 ^ 32 - first) % 2 ^ 32 / 4 in
        rw e (
          chain-Asks t Any _ (read_words t first count)
            (λ words. sub (bytes_of_words words) (location - first) n) (read_words-Asks first count)
            (λ words _. sub-Asks t (bytes_of_words words) (location - first) n))
  ]

  pub read_word_at-Asks : (location : ℕ) → Asks t Any (read_word_at t location)
  unfolding read_word_at
  read_word_at-Asks location =
      chain-Asks t _ Any (read_bytes t location 4) _ (read_bytes-Asks location 4) (λ bs _.
        if-Asks t Any (not (length bs == 4)) (fail (Fault.failed RttError.no_data))
          (pure (u32_at bs 0)) (fail-Asks t Any _) (pure-Asks t Any _ tt))

  get_rtt_cb-Asks : (location : ℕ) → Asks t Any (get_rtt_cb t location)
  unfolding get_rtt_cb
  get_rtt_cb-Asks location =
      chain-Asks t _ Any (read_bytes t location header_size) _ (read_bytes-Asks location _)
        (λ bs _. lifted-Asks t (cb_from_location_bytes location bs))

  get_rtt_up_buf-Asks : (cb : RttCb) (index : ℕ) → Asks t Any (get_rtt_up_buf t cb index)
  unfolding get_rtt_up_buf
  get_rtt_up_buf-Asks cb index =
      chain-Asks t Any Any (lifted (get_up_buf_loc cb index)) _ (lifted-Asks t _) (λ loc _.
        chain-Asks t _ Any (read_bytes t loc buf_size) _ (read_bytes-Asks loc _)
          (λ bs _. lifted-Asks t (buf_from_location_bytes loc bs)))

  pub gather-Asks : (stored : RttBuf) (n : ℕ) → Asks t (λ l. length l ≡ n) (gather t stored n)
  unfolding gather
  gather-Asks stored n =
      let first = min n ((stored.size + 2 ^ 32 - stored.read_pos) % 2 ^ 32) in
      let short : ltb first n ≡ false → first ≡ n = λ e. ground arith in
      let longer : ltb first n ≡ true → first < n = ltb→lt first n in
      if-Asks t _ (ltb stored.read_pos stored.write_pos) (read_bytes t (cur_read_loc stored) n) _
        (read_bytes-Asks (cur_read_loc stored) n)
        (chain-Asks t _ _ (read_bytes t (cur_read_loc stored) first)
          (λ bs.
            if ltb first n
            then (do second ← read_bytes t stored.data_ptr (n - first); pure (bs ++ second))
            else pure bs)
          (read_bytes-Asks _ first)
          (λ bs size. elim (Bool-cases (ltb first n)) [
            | inl e ↦ rw e (
                chain-Asks t _ _ (read_bytes t stored.data_ptr (n - first))
                  (λ second. pure (bs ++ second)) (read_bytes-Asks _ (n - first))
                  (λ second size₂.
                    pure-Asks t _ (bs ++ second)
                      (omega (arith, length-append bs second, size, size₂, longer e))))
            | inr e ↦ rw e (pure-Asks t _ bs (size ∙ short e))
          ]))

  start-Asks : (location : ℕ) → Asks t Any (start t location)
  unfolding start
  start-Asks location =
      chain-Asks t Any Any (get_rtt_cb t location) _ (get_rtt_cb-Asks location) (λ cb _.
        chain-Asks t Any Any (get_rtt_up_buf t cb 0) (λ up. updating t (started_with t cb up))
          (get_rtt_up_buf-Asks cb 0) (λ up _. updating-Asks t (started_with t cb up) (λ r. refl)))

  pub restarted-Asks : Asks t Any (restarted t)
  unfolding restarted
  restarted-Asks =
      let found : Rtt → Run (Machine t) RttBuf = λ r. ok_or RttError.stopped r.rtt_up_buf in
      let again =
        chain-Asks t Any Any (current t) found (current-Asks t) (λ r _. ok_or-Asks t _ _) in
      chain-Asks t Any Any (current t) _ (current-Asks t) (λ r _.
        chain-Asks t Any Any (ok_or RttError.stopped r.rtt_cb)
          (λ cb. do updating t stop; start t cb.location; r₁ ← current t; found r₁)
          (ok_or-Asks t _ _)
          (λ cb _.
            chain-Asks t Any Any (updating t stop) _ (updating-Asks t stop (λ r₁. refl)) (λ _ _.
              chain-Asks t Any Any (start t cb.location) _ (start-Asks cb.location)
                (λ _ _. again))))

  write_word-Asks : (location word : ℕ) → Asks t Any (write_word t location word)
  unfolding write_word
  write_word-Asks location word =
      chain-Asks t Any Any (asking t (t.write_mem location word))
        (λ written. if written then pure tt else fail (Fault.failed RttError.target))
        (asking-Asks t _)
        (λ written _. if-Asks t Any written _ _ (pure-Asks t Any tt tt) (fail-Asks t Any _))

  pub tell-Asks : (stored : RttBuf) → Asks t Any (tell t stored)
  unfolding tell
  tell-Asks stored =
      chain-Asks t Any Any (write_word t (read_pos_field_loc stored) stored.read_pos)
        (λ _. updating t (with_up_buf t stored)) (write_word-Asks _ _)
        (λ _ _. updating-Asks t (with_up_buf t stored) (λ r. refl))
