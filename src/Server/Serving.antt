-- ===== src/Server/Serving.antt =====
-- `serve` of src/sftp.cpp: the handshake, and workers over one buffer.
use corosh.Base.{
  ℕ, zero, suc, ◌+◌, ◌%◌, ◌^◌, ◌≤◌, ◌<◌, ◌≡◌, refl, ap, ◌∙◌, true, leb, ltb, lt→ltb, not_ltb, List,
  [], ◌∷◌, ◌++◌, Option, none, some, length, replicate, if◌then◌else◌, append-nil, append_assoc,
  arith,
}
use native.Mathlib.Decide.{dec_lt}
use corosh.Base.Host.{little}
use corosh.Errors.{ErrorCode, no_error, failed}
use corosh.Handshake.{Pipe, Extensions, init_server, init_message}
use corosh.Handshake.Opening.{version_packet, extension_bytes, init_server-init_message}
use corosh.Server.Worker.{Shared}

-- `for (auto i = 0u; i <= worker_count; i++) workers.push_back(...)`: `i` has 32 bits, `worker_count` has 64.
-- `none` if the rounds that the fuel allows were not enough.
pub push_workers : {W : Type 0} → ℕ → W → ℕ → ℕ → List W → Option (List W)
push_workers zero worker worker_count i workers = none
push_workers (suc fuel) worker worker_count i workers =
    let more = push_workers fuel worker worker_count ((i + 1) % 2 ^ 32) (workers ++ worker ∷ []) in
    if leb i worker_count then more else some workers

-- The result of `when_any`: the first alternative has the index 0.
abbrev pub result : {S : Type 0} → Option ErrorCode × S → ErrorCode × S
result (some ec, s) = (ec, s)
result (none, s) = (no_error, s)

-- A worker is a value, `serve_worker` with its arguments; `when_any` runs several.
module _ {S T W : Type 0} (pipe : Pipe S) (worker : W)
    (when_any : List W → Shared S T → Option ErrorCode × Shared S T) where
  abbrev pub run_workers : Option (List W) → Shared S T → Option (ErrorCode × Shared S T)
  run_workers none s = none
  run_workers (some workers) s = some (result (when_any workers s))

  unfoldable pub serve : ℕ → Extensions → ℕ → S → T → Option (ErrorCode × Shared S T)
  unfolding push_workers
  serve fuel extensions worker_count stream server =
      let (ec, opened) = init_server pipe extensions stream in
      let shared : Shared S T = record { buffer = []; stream = opened; server = server } in
      if failed ec
      then some (ec, shared)
      else run_workers (push_workers fuel worker worker_count 0 []) shared

le→leb : (a b : ℕ) → a ≤ b → leb a b ≡ true
le→leb a b h = ground arith

push_workers_from :
    {W : Type 0} (worker : W) (worker_count n i fuel : ℕ) (workers : List W)
    → n + i ≡ worker_count + 1
    → worker_count + 1 < 2 ^ 32
    → n < fuel
    → push_workers fuel worker worker_count i workers ≡ some (workers ++ replicate n worker)
unfolding push_workers
push_workers_from worker worker_count n i zero workers e small enough = absurd (omega arith)
push_workers_from worker worker_count zero i (suc fuel) workers e small enough =
    ground (arith, append-nil workers)
push_workers_from worker worker_count (suc n) i (suc fuel) workers e small enough =
    let next : (i + 1) % 2 ^ 32 ≡ i + 1 = omega arith in
    rw (le→leb i worker_count (omega arith)) (
      ap (λ k. push_workers fuel worker worker_count k (workers ++ worker ∷ [])) next
      ∙ push_workers_from worker worker_count n (i + 1) fuel (workers ++ worker ∷ []) (omega arith)
          small (omega arith)
      ∙ ap some (append_assoc workers (worker ∷ []) (replicate n worker)))

push_workers_forever :
    {W : Type 0} (worker : W) (worker_count fuel i : ℕ) (workers : List W)
    → 2 ^ 32 ≤ worker_count + 1
    → i < 2 ^ 32
    → push_workers fuel worker worker_count i workers ≡ none
unfolding push_workers
push_workers_forever worker worker_count zero i workers h k = refl
push_workers_forever worker worker_count (suc fuel) i workers h k =
    rw (le→leb i worker_count (omega arith)) (
      push_workers_forever worker worker_count fuel ((i + 1) % 2 ^ 32) (workers ++ worker ∷ []) h
        (omega arith))

result_lem :
    {S : Type 0} (first : Option ErrorCode) (s : S)
    → result (first, s) ≡ (elim first [ some ec ↦ ec | none ↦ no_error ], s)
result_lem none s = refl
result_lem (some ec) s = refl

module _ {S T W : Type 0} (pipe : Pipe S) (worker : W)
    (when_any : List W → Shared S T → Option ErrorCode × Shared S T) where
  -- Against the message of a client on a host of little byte order, whatever has arrived behind it, with
  -- extensions that fit a packet and an answer that can be written, `serve` runs `worker_count + 1` workers, which
  -- start with an empty buffer, and returns the code that `when_any` brings as its first alternative, or
  -- success where it brings another; if `worker_count` is 2^32 - 1 or more, it pushes workers without an end instead.
  pub serve-init_message :
      (es : Extensions) (rest : List ℕ) (worker_count fuel : ℕ) (s t u : S) (server : T)
      (first : Option ErrorCode) (end : Shared S T)
      → length (extension_bytes es) + 9 < 2 ^ 32
      → pipe.read_until [] s ≡ ((no_error, init_message little ++ rest), t)
      → pipe.write (version_packet es) t ≡ (no_error, u)
      → worker_count + 1 < fuel
      → when_any
          (replicate (worker_count + 1) worker)
          (record { buffer = []; stream = u; server = server })
        ≡ (first, end)
      → serve pipe worker when_any fuel es worker_count s server ≡ (
          if ltb (worker_count + 1) (2 ^ 32)
          then some (elim first [ some ec ↦ ec | none ↦ no_error ], end)
          else none)
  unfolding serve
  serve-init_message es rest worker_count fuel s t u server first end short arrives writes enough
        ends =
      let opened : init_server pipe es s ≡ (no_error, u) =
        init_server-init_message pipe little es rest s t short arrives ∙ writes in
      let shared : Shared S T = record { buffer = []; stream = u; server = server } in
      rw opened (elim (dec_lt (worker_count + 1) (2 ^ 32)) [
        | yes small ↦ rw (lt→ltb (worker_count + 1) (2 ^ 32) small) (
            ap (λ ws. run_workers pipe worker when_any ws shared)
              (push_workers_from worker worker_count (worker_count + 1) 0 fuel [] (omega arith)
                small enough)
            ∙ ap (λ r. some (result r)) ends
            ∙ ap some (result_lem first end))
        | no large ↦ rw (not_ltb (worker_count + 1) (2 ^ 32) (omega arith)) (
            ap (λ ws. run_workers pipe worker when_any ws shared)
              (push_workers_forever worker worker_count fuel 0 [] (omega arith) (omega arith)))
      ])
