-- ===== src/Reader/Lifetime/Shutdown.antt =====
-- mcanbus/src/reader.rs: the end of a `Reader`.
use mcanbus.Base.{
  min, ◌!=◌, arith, All-append, All, ℕ, ◌≡◌, refl, sym, ap, ◌∙◌, Bool, true, false, Option, none,
  some, List, [], ◌∷◌, if◌then◌else◌,
}
use mcanbus.Frame.Data.{Frame}
use mcanbus.Reader.{
  TrySend, ReaderInner, ReaderConfig, new_inner, batch_of, first_buf, reader_round,
}
use mcanbus.Reader.Lifetime.{
  Reader, with_config, stopped_in, ended, join, without_thread, stop_and_join, drop_reader,
  shutdown,
}
use mcanbus.Reader.Loop.{
  hangs, ComesBack, Interference, push_all, store_stop, run_reader, run_reader-stop,
}
use mcanbus.Socket.Kernel.{Kernel}
use mcanbus.Socket.Ledger.{Ledger}
use mcanbus.Socket.Open.{drop_socket}
use mcanbus.Socket.Transfer.{Socket}
use mcanbus.Reader.Lifetime.Kept.{ReaderLedger, OthersKeep, run_reader-keeps}

module _ (k : Kernel) (ledger : Ledger k) (try_send : ℕ → Frame → k.World → TrySend × k.World)
    (reader_calls : ReaderLedger k ledger try_send) where
  open k use {World}
  open ledger use {open_fds, close_closes}

  -- The thread ends by the flag only.
  run_reader-flag :
      (socket : Socket) (batch_size : ℕ) (es : List (Interference World)) (buf : List Frame)
      (inner : ReaderInner) (w : World)
      → let r = run_reader k try_send socket batch_size es buf inner w in
        r.0.1 ≡ true → r.0.0.stop ≡ true
  unfolding run_reader
  run_reader-flag socket batch_size [] buf inner w = λ gone. gone
  run_reader-flag socket batch_size (e ∷ es) buf inner w =
      let r =
        reader_round k try_send socket batch_size buf e.joined (push_all e.waiting inner)
          (e.others w) in
      tested _ inner.stop (hangs k try_send socket batch_size buf (e.others w)) refl
        (run_reader-flag socket batch_size es r.0.0 (store_stop e.stop r.0.1) r.1)
    where
      tested :
          (o : (ReaderInner × Bool) × World) (stop hang : Bool)
          → inner.stop ≡ stop
          → (o.0.1 ≡ true → o.0.0.stop ≡ true)
          → let after : (ReaderInner × Bool) × World =
              if stop
              then ((inner, true), w)
              else if hang
              then ((store_stop e.stop (push_all e.waiting inner), false), e.others w)
              else o in
            after.0.1 ≡ true → after.0.0.stop ≡ true
      tested o true hang h later gone = h
      tested o false false h later gone = later gone
      tested o false true h later gone = absurd (cc gone)

  -- The thread has been joined, its socket is closed, and the reader can be dropped once more.
  abbrev Ends :
      List ℕ → List (Interference World) → Interference World → Option (Reader × World) → Type 0
  Ends fds es last o =
      (self : Reader) × (w : World) × (o ≡ some (self, w))
      × (drop_reader k try_send es last self w ≡ some (self, w))
      × (self.handle ≡ none)
      × (self.inner.stop ≡ true)
      × (open_fds w ≡ fds)

  ended-Ends :
      (socket : Socket) (fds : List ℕ) (es : List (Interference World)) (last : Interference World)
      (r : (ReaderInner × Bool) × World)
      → r.0.1 ≡ true
      → r.0.0.stop ≡ true
      → open_fds r.1 ≡ socket.fd ∷ fds
      → Ends fds es last (without_thread k try_send (ended k try_send socket r))
  unfolding drop_reader stop_and_join drop_socket
  ended-Ends socket fds es last ((inner, false), w) gone flag held = absurd (cc gone)
  ended-Ends socket fds es last ((inner, true), w) gone flag held = (
    record { inner = inner; handle = none },
    k.close socket.fd w,
    refl,
    ap
        (λ (stop : Bool).
          let self : Reader = record { inner = record inner { stop = stop }; handle = none } in
          some (self, k.close socket.fd w))
        (sym flag),
    refl,
    flag,
    close_closes socket.fd fds w held,
  )

  -- When the receive calls on its socket come back, as they do with a receive timeout, a reader that
  -- owns the socket it was made of can be stopped in any round of its thread, whatever the kernel
  -- answers and whatever the queues and other threads have done until then, if only these leave
  -- the open descriptors alone: its thread ends, so that it is joined, the socket is closed and no
  -- other descriptor, the flag is set, and `shutdown` does just what dropping the reader does.
  pub shutdown-drop_reader :
      (socket : Socket) (config : ReaderConfig) (fds : List ℕ) (es : List (Interference World))
      (last : Interference World) (w : World)
      → All (OthersKeep k ledger) es
      → OthersKeep k ledger last
      → open_fds w ≡ socket.fd ∷ fds
      → ComesBack k socket
      → (self : Reader) × (w' : World) × (drop_reader k try_send es last
            (with_config socket config)
            w
          ≡ some (self, w'))
        × (shutdown k try_send es last (with_config socket config) w ≡ some (self, w'))
        × (self.handle ≡ none)
        × (self.inner.stop ≡ true)
        × (open_fds w' ≡ fds)
  unfolding with_config drop_reader shutdown stop_and_join join
  shutdown-drop_reader socket config fds es last w keeps keep held back =
      let run =
        run_reader k try_send socket (batch_of config) (stopped_in es last)
          (first_buf k try_send socket) new_inner w in
      let gone =
        (run_reader-stop k try_send socket (batch_of config) es (record last { stop = true }) []
          (first_buf k try_send socket) new_inner w refl back).0 in
      let end =
        ended-Ends socket fds es last run gone
          (run_reader-flag socket (batch_of config) (stopped_in es last)
            (first_buf k try_send socket) new_inner w gone)
          (run_reader-keeps k ledger try_send reader_calls socket (batch_of config)
              (stopped_in es last) (first_buf k try_send socket) new_inner w
              (All-append (OthersKeep k ledger) es (record last { stop = true } ∷ []) keeps
                (keep, tt))
            ∙ held) in
      (
        end.0,
        end.1,
        end.2,
        ap
              (λ (o : Option (Reader × World)). elim o as (λ p. Option (Reader × World)) [
                | none ↦ none
                | some (self', w') ↦ drop_reader k try_send es last self' w'
              ])
              end.2
            ∙ end.3,
        end.4,
        end.5,
        end.6,
      )

  -- The thread does not come back from its first call.
  run_reader-blocked :
      (socket : Socket) (config : ReaderConfig) (e : Interference World)
      (es : List (Interference World)) (w : World)
      → ((w' : World) → k.recv_blocks socket.fd w' ≡ true)
      → ended k try_send socket (
          run_reader k try_send socket
            (batch_of config)
            (e ∷ es)
            (first_buf k try_send socket)
            new_inner
            w)
        ≡ none
  unfolding run_reader
  run_reader-blocked socket config e es w blocks = rw (some_slots, blocks (e.others w)) refl
    where
      some_slots : (min (batch_of config) 64 != 0) ≡ true
      some_slots = ground arith

  -- When these calls never come back, as on a silent bus without a receive timeout, the thread is
  -- never joined: neither dropping the reader nor `shutdown` returns.
  shutdown-blocked :
      (socket : Socket) (config : ReaderConfig) (es : List (Interference World))
      (last : Interference World) (w : World)
      → ((w' : World) → k.recv_blocks socket.fd w' ≡ true)
      → (drop_reader k try_send es last (with_config socket config) w ≡ none)
        × (shutdown k try_send es last (with_config socket config) w ≡ none)
  unfolding with_config drop_reader shutdown stop_and_join join
  shutdown-blocked socket config es last w blocks = never es
    where
      both :
          (o : Option (ReaderInner × World))
          → o ≡ none
          → (without_thread k try_send o ≡ none)
            × (elim (without_thread k try_send o) as (λ p. Option (Reader × World)) [
              | none ↦ none
              | some (self', w') ↦ drop_reader k try_send es last self' w'
            ]
                ≡ none)
      both none same = (refl, refl)
      both (some r) same = absurd (cc same)

      never :
          (before : List (Interference World))
          → let o = ended k try_send socket (
              run_reader k try_send socket
                (batch_of config)
                (stopped_in before last)
                (first_buf k try_send socket)
                new_inner
                w) in
            (without_thread k try_send o ≡ none)
            × (elim (without_thread k try_send o) as (λ p. Option (Reader × World)) [
              | none ↦ none
              | some (self', w') ↦ drop_reader k try_send es last self' w'
            ]
                ≡ none)
      never [] = both _ (run_reader-blocked socket config (record last { stop = true }) [] w blocks)
      never (e ∷ before) =
          both _ (run_reader-blocked socket config e (stopped_in before last) w blocks)
