-- ===== src/Sftp/World/Stopping.antt =====
-- The end of `stop` in src/sftp_server.cpp.
use mock_services.Base.{
  ℕ, ◌≡◌, refl, ap, inl, inr, ◌∙◌, Bool-cases, none, List, [], ◌∷◌, All, arith, nat_eq, nat_eq_iff,
  nat_key,
}
use mock_services.Sftp.Sessions.{SftpSetup}
use mock_services.Sftp.Listener.Ledger.{count}
use mock_services.Sftp.World.{
  World, Phase, absent, begun, shaking, accepted, serving, stop_begin, stop_end,
}
use mock_services.Sftp.World.Steps.{stopping, stop_ended, initial, Reach, here, next, Reach-trans}
use mock_services.Sftp.World.Safe.{alive}
use mock_services.Sftp.World.Moves.{stop_end-keeps}
use mock_services.Sftp.World.Reaching.{Reach-IsSafe, initial-IsSafe}
use mock_services.Sftp.World.Ending.{Ends, thread-Ends}

-- What stays of the world while threads end.
abbrev Stays : World → World → Type 0
Stays w t =
    ((y : ℕ) → w.phase y ≡ absent → t.phase y ≡ absent)
    × (t.core.session_threads ≡ w.core.session_threads)
    × (t.core.server.running ≡ w.core.server.running)
    × (t.core.new_sessions ≡ w.core.new_sessions)
    × (t.log ≡ w.log)

Ends-Stays : (x : ℕ) (w t : World) → Ends x w t → Stays w t
Ends-Stays x w t (r, done, f) = (
  λ y e. elim (Bool-cases (nat_eq y x)) [
    | inl is ↦ ap t.phase ((nat_eq_iff y x).0 is) ∙ done
    | inr is ↦ f.others y is ∙ e
  ],
  f.threads,
  f.runs,
  f.handed,
  f.log,
)

threads_end :
    (setup : ℕ → SftpSetup) (xs : List ℕ) (w : World)
    → (t : World) × Reach w t × All (λ x. t.phase x ≡ absent) xs × Stays w t
threads_end setup [] w = (w, here, tt, (λ y e. e, refl, refl, refl, refl))
threads_end setup (x ∷ xs) w =
    let (u, (r, done, f)) = thread-Ends (setup x) x w in
    let (t, s, all, (stay, threads, runs, handed, log)) = threads_end setup xs u in
    let (stay', threads', runs', handed', log') = Ends-Stays x w u (r, done, f) in
    (
      t,
      Reach-trans r s,
      (stay x done, all),
      (λ y e. stay y (stay' y e), threads ∙ threads', runs ∙ runs', handed ∙ handed', log ∙ log'),
    )

alive-zero : (p : Phase) → alive p ≡ 0 → p ≡ absent
alive-zero absent h = refl
alive-zero begun h = cc
alive-zero (shaking chan) h = cc
alive-zero (accepted chan) h = cc
alive-zero (serving desk) h = cc

-- From every moment of a run, once `stop` has taken the flag back, whatever `sftp_server_new` and
-- `sftp_server_init` still answer, there is a run of steps in which the threads of the sessions end,
-- nothing is done to a file and `stop` returns; then there is no thread and no bind object left, and
-- every session that libssh handed out has been freed as often as it was handed out.
pub stop_returns :
    (bind key : ℕ) (setup : ℕ → SftpSetup) {w : World}
    → Reach (initial bind key) w
    → (t : World) × Reach (stop_begin w) t
      × (t.core.session_threads ≡ [])
      × (t.core.bind ≡ none)
      × ((x : ℕ) → t.phase x ≡ absent)
      × ((x : ℕ) → count x w.core.new_sessions ≡ count x t.core.freed_sessions)
      × (t.log ≡ w.log)
unfolding stop_begin stop_end
stop_returns bind key setup {w} r =
    let begun = stop_begin w in
    let (u, s, all, (stay, threads, runs, handed, log)) =
      threads_end setup w.core.session_threads begun in
    let done : All (λ x. u.phase x ≡ absent) u.core.session_threads = rw threads all in
    let t = stop_end u in
    let run = next s (stop_ended u runs done) in
    let safe = Reach-IsSafe run (Reach-IsSafe (next r (stopping w)) (initial-IsSafe bind key)) in
    let (new, _, empty, _, unbound) = stop_end-keeps u in
    let gone : (x : ℕ) → alive (t.phase x) ≡ 0 = λ x.
      let le = safe.threads x in
      let none_left : count x t.core.session_threads ≡ 0 = rw empty refl in omega arith in
    (
      t,
      run,
      empty,
      unbound,
      λ x. alive-zero (t.phase x) (gone x),
      λ x.
          let all_freed = safe.counts x in
          let same : count x t.core.new_sessions ≡ count x w.core.new_sessions =
            ap (count x) (new ∙ handed) in
          omega (arith, gone x),
      log,
    )
