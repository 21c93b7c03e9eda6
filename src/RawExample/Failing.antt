-- ===== src/RawExample/Failing.antt =====
-- raw-example/epoll.cc: a write that fails within handleRead.
use net_library.Base.{
  ℕ, zero, suc, ◌+◌, ◌-◌, ◌<◌, ◌≡◌, refl, ap, ◌∙◌, true, some, none, List, [], ◌∷◌, ◌++◌, length,
  append_assoc, arith,
}
use net_library.RawExample.Sending.{set_there}
use net_library.RawExample.Serving.{handle_read_next, read_one-request}
use net_library.RawExample.{
  Con, Server, Received, bytes, broken, Sent, failed, goes, con_of, or_new, put_con, erase,
  close_fd, end_send, is_request, send_loop, send_res, read_one, handle_read,
}

end_send-failed :
    (s : Server) (fd left : ℕ) → 0 < left → end_send s fd left failed ≡ erase (close_fd s fd) fd
end_send-failed s fd zero lt = absurd (omega arith)
end_send-failed s fd (suc left) lt = refl

send_res-failed :
    (httpstr : List ℕ) (sent : ℕ → ℕ → Sent) (fuel : ℕ) (s : Server) (fd : ℕ)
    → (con_of s fd).written < length httpstr
    → sent s.writes (length httpstr - (con_of s fd).written) ≡ failed
    → send_res httpstr sent (suc fuel) s fd
      ≡ goes
          (erase (close_fd (record (put_con s fd (con_of s fd)) { writes = s.writes + 1 }) fd) fd)
unfolding send_res send_loop
send_res-failed httpstr sent fuel s fd lt cut = rw cut (
    ap goes (
      end_send-failed (record (put_con s fd (con_of s fd)) { writes = s.writes + 1 }) fd
        (length httpstr - (con_of s fd).written) (omega (arith, lt))))

-- The first read gives a request, of which no answer has gone out in full, the write fails, and the
-- read behind it gives an error, as it does on a closed descriptor. Then handleRead returns with the
-- entry erased and the descriptor closed twice.
pub handle_read_closes_twice :
    (httpstr : List ℕ) (sent : ℕ → ℕ → Sent) (received : ℕ → Received) (rounds fuel : ℕ)
    (s : Server) (fd x : ℕ) (xs : List ℕ)
    → received s.reads ≡ bytes (x ∷ xs)
    → is_request ((con_of s fd).readed ++ x ∷ xs) ≡ true
    → (con_of s fd).written < length httpstr
    → sent s.writes (length httpstr - (con_of s fd).written) ≡ failed
    → received (s.reads + 1) ≡ broken
    → (s' : Server) × (handle_read httpstr sent received (suc (suc rounds)) (suc fuel) s fd
        ≡ goes s')
      × (s'.cons fd ≡ none)
      × (s'.closes ≡ s.closes ++ fd ∷ fd ∷ [])
unfolding read_one
handle_read_closes_twice httpstr sent received rounds fuel s fd x xs e ok lt cut bad =
    let c : Con = record (con_of s fd) { readed = (con_of s fd).readed ++ x ∷ xs } in
    let s1 : Server = put_con (record s { reads = s.reads + 1 }) fd c in
    let ew : (con_of s1 fd).written ≡ (con_of s fd).written =
      ap (λ c. (or_new c).written) (set_there s.cons fd (some c)) in
    let s2 : Server =
      erase (close_fd (record (put_con s1 fd (con_of s1 fd)) { writes = s.writes + 1 }) fd) fd in
    (
      erase (close_fd (record s2 { reads = s2.reads + 1 }) fd) fd,
      handle_read_next httpstr sent received (suc rounds) (suc fuel) s fd s.reads (bytes (x ∷ xs))
            refl e
          ∙ read_one-request httpstr sent received (suc fuel) _ (record s { reads = s.reads + 1 })
              s2 fd x xs ok
              (send_res-failed httpstr sent fuel s1 fd (omega (arith, ew, lt))
                (ap (λ n. sent s.writes (length httpstr - n)) ew ∙ cut))
          ∙ handle_read_next httpstr sent received rounds (suc fuel) s2 fd (s.reads + 1) broken refl
              bad,
      set_there s2.cons fd none,
      append_assoc s.closes (fd ∷ []) (fd ∷ []),
    )
