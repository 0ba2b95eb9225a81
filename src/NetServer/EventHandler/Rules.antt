-- ===== src/NetServer/EventHandler/Rules.antt =====
-- When a call on the object keeps the counts of the listeners, and the calls of which the handlers
-- are made.
use cppfastdevelop.Prelude.{ℕ, ◌≡◌, Bool, List, [], ◌∷◌, if◌then◌else◌, if_both, Fd, find}
use cppfastdevelop.NetServer.Buffer.{Result, ok, throw, ReadBuffer, WriteBuffer}
use cppfastdevelop.NetServer.EventHandler.{
  ClientInfo, Handler, Action, found, Callbacks, get_client_info, get_listen_info, get_read_buffer,
  get_write_buffer, put_read, put_reads, put_write, put_writes, on_demux, on_network, done,
  change_client, ◌>>=◌,
}
use cppfastdevelop.NetServer.EventHandler.Balance.{IsBalanced, Post, Post-bound, rewritten}

abbrev pub Balanced : {D W : Type 0} → (Fd → ℕ) → Handler D W → Type 0
Balanced owed h = IsBalanced owed h.clientfd_clientinfo h.listenfd_listeninfo

-- Where the call returns, the counts are as they were, whatever is owed.
pub record Keeps {D W A : Type 0} (m : Action D W A) : Type 0 where
  pub at :
      (owed : Fd → ℕ) (h : Handler D W) → Balanced owed h → Post (λ a h'. Balanced owed h') (m h)

pub record CallbacksKeep {D W : Type 0} (cb : Callbacks D W) : Type 0 where
  pub accept_keeps : (l s : Fd) → Keeps (cb.on_accept_complete l s)
  pub read_keeps : (s : Fd) (rb : ReadBuffer) → Keeps (cb.on_read_complete s rb)
  pub write_keeps : (s : Fd) → Keeps (cb.on_write_complete s)
  pub close_keeps : (s : Fd) → Keeps (cb.on_close_complete s)
  pub timeout_keeps : Keeps cb.on_timeout_complete
  pub error_keeps : (s : Fd) → Keeps (cb.on_error_complete s)

module _ {D W : Type 0} where
  pub bind-Keeps :
      {A B : Type 0} {m : Action D W A} {f : A → Action D W B}
      → Keeps m
      → ((a : A) → Keeps (f a))
      → Keeps (m >>= f)
  unfolding ◌>>=◌
  bind-Keeps {A} {B} {m} {f} k g = record {
    at = λ owed h b.
        Post-bound (λ a h'. Balanced owed h') (λ a h'. Balanced owed h') (m h) f (k.at owed h b)
          (λ a h' q. (g a).at owed h' q);
  }

  -- A result that the state decides, with the state left alone or its other parts changed.
  pub result-Keeps :
      {A : Type 0} (r : Result A) (owed : Fd → ℕ) (h : Handler D W)
      → Balanced owed h
      → Post (λ a h'. Balanced owed h') (h, r)
  result-Keeps (ok a) owed h b = b
  result-Keeps (throw e) owed h b = tt

  pub done-Keeps : Keeps (done {D = D} {W = W})
  done-Keeps = record { at = λ owed h b. b }

  pub on_demux-Keeps : (f : D → D) → Keeps (on_demux {W = W} f)
  on_demux-Keeps f = record { at = λ owed h b. b }

  pub on_network-Keeps : {A : Type 0} (f : W → W × Result A) → Keeps (on_network {D = D} f)
  on_network-Keeps f = record {
    at = λ owed h b. result-Keeps (f h.network).1 owed (record h { network = (f h.network).0 }) b;
  }

  pub get_client_info-Keeps : (fd : Fd) → Keeps (get_client_info {D = D} {W = W} fd)
  get_client_info-Keeps fd = record {
    at = λ owed h b. result-Keeps (found (find fd h.clientfd_clientinfo)) owed h b;
  }

  pub get_listen_info-Keeps : (fd : Fd) → Keeps (get_listen_info {D = D} {W = W} fd)
  get_listen_info-Keeps fd = record {
    at = λ owed h b. result-Keeps (found (find fd h.listenfd_listeninfo)) owed h b;
  }

  pub get_read_buffer-Keeps : (n : ℕ) → Keeps (get_read_buffer {D = D} {W = W} n)
  get_read_buffer-Keeps n = record { at = λ owed h b. b }

  pub get_write_buffer-Keeps : (bs : List ℕ) → Keeps (get_write_buffer {D = D} {W = W} bs)
  get_write_buffer-Keeps bs = record { at = λ owed h b. b }

  pub put_read-Keeps : (rb : ReadBuffer) → Keeps (put_read {D = D} {W = W} rb)
  put_read-Keeps rb = record { at = λ owed h b. b }

  pub put_write-Keeps : (wb : WriteBuffer) → Keeps (put_write {D = D} {W = W} wb)
  put_write-Keeps wb = record { at = λ owed h b. b }

  pub change_client-Keeps :
      (fd : Fd) (f : ClientInfo → ClientInfo)
      → ((c : ClientInfo) → ((f c).listenfd ≡ c.listenfd) × ((f c).session ≡ c.session))
      → Keeps (change_client {D = D} {W = W} fd f)
  change_client-Keeps fd f same = record {
    at = λ owed h b. rewritten owed fd f h.clientfd_clientinfo h.listenfd_listeninfo same b;
  }

  pub if-Keeps :
      (c : Bool) {m n : Action D W (Unit {0})} → Keeps m → Keeps n → Keeps (if c then m else n)
  if-Keeps c k l = if_both Keeps c k l

  pub ruleset keep_rules = (
    bind-Keeps, done-Keeps, on_demux-Keeps, on_network-Keeps, get_client_info-Keeps,
    get_listen_info-Keeps, get_read_buffer-Keeps, get_write_buffer-Keeps, put_read-Keeps,
    put_write-Keeps, if-Keeps,
  )

  pub put_reads-Keeps : (rbs : List ReadBuffer) → Keeps (put_reads {D = D} {W = W} rbs)
  unfolding put_reads
  put_reads-Keeps [] = done-Keeps
  put_reads-Keeps (rb ∷ rbs) = bind-Keeps (put_read-Keeps rb) (λ u. put_reads-Keeps rbs)

  pub put_writes-Keeps : (wbs : List WriteBuffer) → Keeps (put_writes {D = D} {W = W} wbs)
  unfolding put_writes
  put_writes-Keeps [] = done-Keeps
  put_writes-Keeps (wb ∷ wbs) = bind-Keeps (put_write-Keeps wb) (λ u. put_writes-Keeps wbs)
