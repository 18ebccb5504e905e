-- ===== src/Session/Lifetime.antt =====
-- Which callbacks a session has, and which libssh calls: `install_server_callbacks` and
-- `install_client_callbacks` of src/session.cpp, the move constructor and the destructor of `session` in
-- include/corosh/session.hpp. Objects are numbers; all is about one session of libssh, and the objects of
-- class `session` that own it in turn.
use corosh.Base.{
  ℕ, Bool, true, false, ◌≡◌, ◌≢◌, refl, sym, ap, ◌∙◌, Option, none, some, ◌==◌, if◌then◌else◌,
  arith,
}

-- The two kinds of callbacks, which are installed alike.
pub data Kind : Type 0 where
  server client : Kind

-- The members of a session: whether `session_` is the session of libssh or null, and `server_callbacks_` and
-- `client_callbacks_` by their kind.
pub record Session : Type 0 where
  pub owns : Bool
  pub held : Kind → Option ℕ

-- What libssh has registered, which objects live, and whether the session of libssh does.
pub record Memory : Type 0 where
  pub registered : Kind → Option ℕ
  pub alive : ℕ → Bool
  pub freed : Bool

abbrev pub set_at : {A : Type 0} → Kind → A → (Kind → A) → Kind → A
set_at server a f server = a
set_at server a f client = f client
set_at client a f server = f server
set_at client a f client = a

abbrev pub mark : ℕ → Bool → (ℕ → Bool) → ℕ → Bool
mark cb b alive a = if a == cb then b else alive a

-- `~unique_ptr`
abbrev pub delete : Option ℕ → Memory → Memory
delete none m = m
delete (some cb) m = record m { alive = mark cb false m.alive }

-- A new object is installed; `accepted` says whether libssh has returned SSH_OK. If not, an exception destroys
-- the object, which the caller has handed over.
unfoldable pub install : Kind → ℕ → Bool → Session × Memory → Session × Memory
install kind cb true (s, m) = (
  record s { held = set_at kind (some cb) s.held },
  delete (s.held kind)
      (record m { registered = set_at kind (some cb) m.registered; alive = mark cb true m.alive }),
)
install kind cb false (s, m) = (s, delete (some cb) m)

-- `session(session && rhs)`: the new session, and `rhs`.
unfoldable pub move_construct : Session → Session × Session
move_construct rhs =
    (record { owns = rhs.owns; held = λ kind. none }, record { owns = false; held = rhs.held })

-- `~session`: the members in the opposite order of their declaration, `session_` by `ssh_free`.
unfoldable pub destroy : Session → Memory → Memory
destroy s m =
    let bare = delete (s.held server) (delete (s.held client) m) in
    if s.owns then record bare { freed = true } else bare

-- A session that is used: new objects are installed, or refused by libssh.
pub data Used (s0 : Session) (m0 : Memory) : Session × Memory → Type 0 where
  unused : Used s0 m0 (s0, m0)
  installed :
      {s : Session} {m : Memory} (kind : Kind) (cb : ℕ) (accepted : Bool)
      → Used s0 m0 (s, m)
      → s.held server ≢ some cb
      → s.held client ≢ some cb
      → Used s0 m0 (install kind cb accepted (s, m))

-- libssh has the objects registered that the session has, of each kind another, and these live.
pub record Consistent (s : Session) (m : Memory) : Type 0 where
  pub same_server : m.registered server ≡ s.held server
  pub same_client : m.registered client ≡ s.held client
  pub live_server : (cb : ℕ) → s.held server ≡ some cb → m.alive cb ≡ true
  pub live_client : (cb : ℕ) → s.held client ≡ some cb → m.alive cb ≡ true
  pub apart : (cb : ℕ) → s.held server ≡ some cb → s.held client ≢ some cb

delete_registered :
    (o : Option ℕ) (m : Memory) (kind : Kind) → (delete o m).registered kind ≡ m.registered kind
delete_registered none m kind = refl
delete_registered (some cb) m kind = refl

delete_freed : (o : Option ℕ) (m : Memory) → (delete o m).freed ≡ m.freed
delete_freed none m = refl
delete_freed (some cb) m = refl

mark_dead : (cb : ℕ) (alive : ℕ → Bool) → mark cb false alive cb ≡ false
mark_dead cb alive = ground arith

mark_other : (cb a : ℕ) (b : Bool) (alive : ℕ → Bool) → a ≢ cb → mark cb b alive a ≡ alive a
mark_other cb a b alive h = ground arith

delete_alive : (o : Option ℕ) (m : Memory) (a : ℕ) → o ≢ some a → (delete o m).alive a ≡ m.alive a
delete_alive none m a h = refl
delete_alive (some cb) m a h = mark_other cb a false m.alive (λ e. h (ap some (sym e)))

mark_self : (cb a : ℕ) (alive : ℕ → Bool) → some cb ≡ some a → mark cb true alive a ≡ true
mark_self cb a alive h = ground arith

install-Consistent :
    (kind : Kind) (cb : ℕ) (accepted : Bool) (s : Session) (m : Memory)
    → Consistent s m
    → s.held server ≢ some cb
    → s.held client ≢ some cb
    → Consistent (install kind cb accepted (s, m)).0 (install kind cb accepted (s, m)).1
unfolding install
install-Consistent server cb true s m c fs fc = record {
  same_server = delete_registered (s.held server) _ server;
  same_client = delete_registered (s.held server) _ client ∙ c.same_client;
  live_server =
      λ a e. delete_alive (s.held server) _ a (λ h. fs (h ∙ sym e)) ∙ mark_self cb a m.alive e;
  live_client = λ a e.
      delete_alive (s.held server) _ a (λ h. c.apart a h e)
      ∙ mark_other cb a true m.alive (λ same. fc (e ∙ ap some same))
      ∙ c.live_client a e;
  apart = λ a e h. fc (h ∙ sym e);
}
install-Consistent client cb true s m c fs fc = record {
  same_client = delete_registered (s.held client) _ client;
  same_server = delete_registered (s.held client) _ server ∙ c.same_server;
  live_client =
      λ a e. delete_alive (s.held client) _ a (λ h. fc (h ∙ sym e)) ∙ mark_self cb a m.alive e;
  live_server = λ a e.
      delete_alive (s.held client) _ a (λ h. c.apart a e h)
      ∙ mark_other cb a true m.alive (λ same. fs (e ∙ ap some same))
      ∙ c.live_server a e;
  apart = λ a e h. fs (e ∙ sym h);
}
install-Consistent kind cb false s m c fs fc = record {
  same_server = c.same_server;
  same_client = c.same_client;
  live_server =
      λ a e. mark_other cb a false m.alive (λ same. fs (e ∙ ap some same)) ∙ c.live_server a e;
  live_client =
      λ a e. mark_other cb a false m.alive (λ same. fc (e ∙ ap some same)) ∙ c.live_client a e;
  apart = c.apart;
}

-- However a session is used, where libssh and the session begin with the same live objects: after any new
-- objects were installed, or refused by libssh, libssh has registered the objects that the session
-- holds, and these live.
pub Used-Consistent :
    {s0 : Session} {m0 : Memory} {u : Session × Memory}
    → Consistent s0 m0
    → Used s0 m0 u
    → Consistent u.0 u.1
Used-Consistent c unused = c
Used-Consistent c (installed {s = s} {m = m} kind cb accepted r fs fc) =
    install-Consistent kind cb accepted s m (Used-Consistent c r) fs fc

-- What is left of the members of a session that owns nothing.
module _ (s : Session) (m : Memory) where
  abbrev left : Memory
  left = delete (s.held server) (delete (s.held client) m)

  left_registered :
      (kind : Kind) (cb : ℕ)
      → Consistent s m
      → s.held kind ≡ some cb
      → left.registered kind ≡ some cb
  left_registered server cb c h =
      delete_registered (s.held server) _ server
      ∙ delete_registered (s.held client) m server
      ∙ c.same_server
      ∙ h
  left_registered client cb c h =
      delete_registered (s.held server) _ client
      ∙ delete_registered (s.held client) m client
      ∙ c.same_client
      ∙ h

  left_alive :
      (kind : Kind) (cb : ℕ) → Consistent s m → s.held kind ≡ some cb → left.alive cb ≡ false
  left_alive server cb c h =
      ap (λ o. (delete o (delete (s.held client) m)).alive cb) h
      ∙ mark_dead cb (delete (s.held client) m).alive
  left_alive client cb c h =
      delete_alive (s.held server) _ cb (λ e. c.apart cb e h)
      ∙ ap (λ o. (delete o m).alive cb) h
      ∙ mark_dead cb m.alive

-- A session that is moved leaves its callbacks behind: once the old object is destroyed, libssh, whose session the
-- new object owns and which is not freed, still has registered the callbacks of either kind, if there
-- were any, which do not live any more, and the new object holds none.
pub move_construct-dangles :
    (s : Session) (m : Memory) (kind : Kind) (cb : ℕ)
    → Consistent s m
    → s.owns ≡ true
    → s.held kind ≡ some cb
    → ((move_construct s).0.owns ≡ true)
      × ((destroy (move_construct s).1 m).freed ≡ m.freed)
      × ((destroy (move_construct s).1 m).registered kind ≡ some cb)
      × ((destroy (move_construct s).1 m).alive cb ≡ false)
      × ((move_construct s).0.held kind ≡ none)
unfolding move_construct destroy
move_construct-dangles s m kind cb c owns h = (
  owns,
  delete_freed (s.held server) _ ∙ delete_freed (s.held client) m,
  left_registered s m kind cb c h,
  left_alive s m kind cb c h,
  refl,
)
