-- ===== src/Server/Bind/Record.antt =====
-- A system that keeps a list of its calls, for `bind_target` of src/server.rs.
use zeromasque.Prelude.{
  ℕ, ◌≡◌, sym, ap, ◌∙◌, List, [], ◌∷◌, ◌++◌, Option, none, some, append_assoc, append-nil,
}
use zeromasque.Prelude.Result.{Result, ok, err}
use zeromasque.Net.{SocketAddr}
use zeromasque.Server.Bind.{
  SystemError, SockOption, Domain, Call, Sockets, ◌>>=◌, give, context, bind_result, relabelled,
}

pub data Sys : Type 0 where
  udp_bound : SocketAddr → Sys
  opened : Domain → Sys
  buffers nonblocking adopted reuse_address : Sys
  option : SockOption → ℕ → Sys
  bound connected : SocketAddr → Sys

abbrev pub Log : Type 0
Log = List Sys

abbrev pub answered : Option SystemError → Result SystemError (Unit {0})
answered none = ok tt
answered (some e) = err e

module _ (answers : Log → Sys → Option SystemError) where
  -- A call, answered by the system from the calls before it.
  abbrev pub log : Sys → Call SystemError Log (Unit {0})
  log x w = (answered (answers w x), w ++ x ∷ [])

  abbrev pub recorder : Sockets Log (Unit {0})
  recorder = record {
    bind_udp = λ a. log (udp_bound a);
    new_socket = λ d. log (opened d);
    enlarge_udp_buffers = λ s w. w ++ buffers ∷ [];
    set_option = λ s o n. log (option o n);
    set_reuse_address = λ s. log reuse_address;
    bind = λ s a. log (bound a);
    connect = λ s a. log (connected a);
    set_nonblocking = λ s. log nonblocking;
    from_std = λ s. log adopted;
  }

-- These calls were made, or, where one of them failed, the ones up to it.
abbrev pub Made : {E A : Type 0} → Log → Log → Result E A × Log → Type 0
Made xs w (ok a, v) = v ≡ w ++ xs
Made xs w (err e, v) = (pre : Log) × (rest : Log) × (v ≡ w ++ pre) × (xs ≡ pre ++ rest)

abbrev pub Makes : {E A : Type 0} → Log → Call E Log A → Type 0
Makes xs m = (w : Log) → Made xs w (m w)

pub shift-Made :
    {E A : Type 0}
    → (xs ys w v : Log) (r : Result E A × Log) → v ≡ w ++ xs
    → Made ys v r
    → Made (xs ++ ys) w r
shift-Made xs ys w v (ok b, u) h e = e ∙ ap (λ t. t ++ ys) h ∙ append_assoc w xs ys
shift-Made xs ys w v (err x, u) h (pre, rest, e, g) = (
  xs ++ pre,
  rest,
  e ∙ ap (λ t. t ++ pre) h ∙ append_assoc w xs pre,
  ap (λ t. xs ++ t) g ∙ sym (append_assoc xs pre rest),
)

pub bind-Made :
    {E A B : Type 0}
    → (xs ys w : Log) (r : Result E A × Log) (f : A → Call E Log B) → Made xs w r
    → ((a : A) → Makes ys (f a))
    → Made (xs ++ ys) w (bind_result f r)
bind-Made xs ys w (ok a, v) f h k = shift-Made xs ys w v (f a v) h (k a v)
bind-Made xs ys w (err e, v) f (pre, rest, h, g) k =
    (pre, rest ++ ys, h, ap (λ t. t ++ ys) g ∙ append_assoc pre rest ys)

-- One call after another.
pub then-Makes :
    (E : Type 0) (xs ys : Log) (m : Call E Log (Unit {0})) (f : Unit {0} → Call E Log (Unit {0}))
    → Makes xs m
    → ((a : Unit {0}) → Makes ys (f a))
    → Makes (xs ++ ys) (m >>= f)
then-Makes E xs ys m f h k w = bind-Made xs ys w (m w) f (h w) k

pub give-Makes : {A : Type 0} → (E : Type 0) (a : A) → Makes {E = E} {A = A} [] (give a)
give-Makes E a w = sym (append-nil w)

pub context-Made :
    {A : Type 0}
    → (xs w : Log) (r : Result SystemError A × Log) → Made xs w r
    → Made xs w (relabelled r)
context-Made xs w (ok a, v) h = h
context-Made xs w (err e, v) h = h

pub context-Makes :
    {A : Type 0} → (xs : Log) (m : Call SystemError Log A) → Makes xs m → Makes xs (context m)
context-Makes xs m h w = context-Made xs w (m w) (h w)
