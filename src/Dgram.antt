-- ===== src/Dgram.antt =====
-- src/dgram.rs: the framing of a CONNECT-UDP HTTP datagram, `flow id | context id | payload`.
pub mod RoundTrip
use zeromasque.Prelude.{ℕ, ◌+◌, List, [], ◌++◌, Option, none, some, drop}
use zeromasque.Prelude.Maybe.{◌>>=◌}
use zeromasque.Varint

abbrev pub context_id_udp : ℕ
context_id_udp = 0

unfoldable pub encode : ℕ → List ℕ → List ℕ
encode flow_id udp_payload =
    let out = Varint.encode flow_id [] in
    let out' = Varint.encode context_id_udp out in out' ++ udp_payload

pub record Parsed : Type 0 where
  pub flow_id : ℕ
  pub context_id : ℕ
  pub payload : List ℕ

unfoldable pub decode : List ℕ → Option Parsed
decode buf = do
  (flow_id, n1) ← Varint.decode buf
  (context_id, n2) ← Varint.decode (drop n1 buf)
  some (record { flow_id = flow_id; context_id = context_id; payload = drop (n1 + n2) buf })
