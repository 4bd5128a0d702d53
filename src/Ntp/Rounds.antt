-- ===== src/Ntp/Rounds.antt =====
-- The loop over the time servers ends, with one answer (NtpClient.cpp).
use com_webos_service_locati.Base.{
  List-cases, ℕ, zero, suc, ◌+◌, ◌≤◌, ◌<◌, ◌≡◌, inl, inr, refl, ap, Option, none, some, List, [],
  ◌∷◌, get_elem?, drop, length, Option-cases, arith,
}
use com_webos_service_locati.Ntp.{
  Net, Attempt, no_socket, no_address, no_connection, no_reply, reply, NtpDownloadState, ntp_idle,
  NtpData, data_of, Effect, open_socket, close_socket, completed, status_is, ntp_servers, continue,
  one_server, rounds, ntp_download_thread,
}

-- The callbacks of a download, with their data.
abbrev pub completions : List Effect → List (Option NtpData)
completions [] = []
completions (completed d ∷ es) = d ∷ completions es
completions (_ ∷ es) = completions es

abbrev pub opened : List Effect → ℕ
opened [] = 0
opened (open_socket ∷ es) = suc (opened es)
opened (_ ∷ es) = opened es

abbrev pub closed : List Effect → ℕ
closed [] = 0
closed (close_socket ∷ es) = suc (closed es)
closed (_ ∷ es) = closed es

-- The status after the calls.
abbrev pub left_in : NtpDownloadState → List Effect → NtpDownloadState
left_in s [] = s
left_in s (status_is t ∷ es) = left_in t es
left_in s (_ ∷ es) = left_in s es

-- The data of the first server that replies, of those before a socket that cannot be made.
abbrev reply_or : Net → Attempt → Option NtpData → Option NtpData
reply_or net no_socket rest = none
reply_or net (reply requested responded p) rest = some (data_of net requested responded p)
reply_or net _ rest = rest

abbrev pub first_reply : Net → List (List ℕ) → ℕ → Option NtpData
first_reply net [] i = none
first_reply net (s ∷ ss) i = reply_or net (net.attempt i s) (first_reply net ss (suc i))

-- A download that is over.
pub record IsDone (answer : Option NtpData) (es : List Effect) : Type 0 where
  pub called : completions es ≡ answer ∷ []
  pub sockets : opened es ≡ closed es
  pub status : (s : NtpDownloadState) → left_in s es ≡ ntp_idle

drop-none : (xs : List (List ℕ)) (i : ℕ) → get_elem? xs i ≡ none → drop i xs ≡ []
drop-none [] zero h = refl
drop-none [] (suc i) h = refl
drop-none (x ∷ xs) zero h = ground arith
drop-none (x ∷ xs) (suc i) h = drop-none xs i h

drop-some :
    (xs : List (List ℕ)) (i : ℕ) (s : List ℕ)
    → get_elem? xs i ≡ some s
    → (drop i xs ≡ s ∷ drop (suc i) xs) × (i < length xs)
drop-some [] i s h = ground arith
drop-some (x ∷ xs) zero s h = ground arith
drop-some (x ∷ xs) (suc i) s h = let (d, l) = drop-some xs i s h in (d, omega arith)

-- A server that does not end the loop makes its calls before the rest.
one-IsDone :
    (net : Net) (a : Attempt) (answer : Option NtpData) (more : List Effect)
    → IsDone answer more
    → (es : List Effect) × ((continue (one_server net a) (some more) ≡ some es)
        × IsDone (reply_or net a answer) es)
unfolding one_server continue
one-IsDone net no_socket answer more d =
    (_, (refl, record { called = refl; sockets = refl; status = λ s. refl }))
one-IsDone net no_address answer more d =
    (_, (refl, record { called = d.called; sockets = ap suc d.sockets; status = d.status }))
one-IsDone net no_connection answer more d =
    (_, (refl, record { called = d.called; sockets = ap suc d.sockets; status = d.status }))
one-IsDone net no_reply answer more d =
    (_, (refl, record { called = d.called; sockets = ap suc d.sockets; status = d.status }))
one-IsDone net (reply requested responded p) answer more d =
    (_, (refl, record { called = refl; sockets = refl; status = λ s. refl }))

rounds-IsDone :
    (fuel : ℕ) (net : Net) (servers : List (List ℕ)) (i : ℕ)
    → i ≤ length servers
    → length servers < fuel + i
    → (es : List Effect) × ((rounds fuel net servers i ≡ some es)
        × IsDone (first_reply net (drop i servers) i) es)
unfolding rounds
rounds-IsDone zero net servers i h k = absurd (omega arith)
rounds-IsDone (suc fuel) net servers i h k = elim (Option-cases (get_elem? servers i)) [
  | inl e ↦
      rw (e, drop-none servers i e, rounds)
        (_, (refl, record { called = refl; sockets = refl; status = λ s. refl }))
  | inr (s, e) ↦
      let (d, l) = drop-some servers i s e in
      let (more, (same, over)) =
        rounds-IsDone fuel net servers (suc i) (omega arith) (omega arith) in
      rw (e, d, same, rounds) (one-IsDone net (net.attempt i s) _ more over)
]

abbrev pub names : List ℕ → List ℕ → List ℕ → List (List ℕ)
names a b c = a ∷ b ∷ c ∷ []

servers-length : (xs : List (List ℕ)) → length (ntp_servers xs) ≤ length xs
unfolding ntp_servers
servers-length [] = omega arith
servers-length ([] ∷ xs) = omega (arith, servers-length xs)
servers-length ((x ∷ s) ∷ xs) = omega (arith, servers-length xs)

-- For any three names in the configuration and any behaviour of the network the download ends: it
-- calls the callback exactly once, with the data of the first server that replies, of those with a
-- name, or with CONNECTION_PROBLEM if none does or a socket cannot be made before; every socket that
-- it opened is closed, and the status is idle at the end.
pub ntp_download_thread-IsDone :
    (net : Net) (a b c : List ℕ)
    → (es : List Effect) × ((ntp_download_thread net (names a b c) ≡ some es)
        × IsDone (first_reply net (ntp_servers (names a b c)) 0) es)
unfolding ntp_download_thread
ntp_download_thread-IsDone net a b c = elim (List-cases (ntp_servers (names a b c))) [
  | inl e ↦
      rw (e, ntp_download_thread)
        (_, (refl, record { called = refl; sockets = refl; status = λ s. refl }))
  | inr (s, ss, e) ↦
      let bound = servers-length (names a b c) in
      let short = ap length e in
      rw (e, ntp_download_thread) (rounds-IsDone 4 net (s ∷ ss) 0 (omega arith) (omega arith))
]
