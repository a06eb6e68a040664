-- ===== src/Signer/Server.antt =====
-- relayer/signer/src/main.rs: the server that answers its clients one command after the other.
use most_aleph_zero_bridge.Common.{
  Bool, true, false, Option, none, some, List, [], ◌∷◌, Result, ok, err, map,
}
use most_aleph_zero_bridge.Signer.{Wallet, Command, Response, answer}

pub data ServerError : Type 0 where
  key io hex wallet_error : ServerError

-- The two keys of `Server`.
pub record Keys (KeyPair LocalWallet : Type 0) : Type 0 where
  pub azero_key : KeyPair
  pub eth_wallet : LocalWallet

-- `Server::new`: the key pair, whether the socket is bound, the decoded bytes, and the wallet from
-- them, each with `none` for an error.
unfoldable pub new :
    {KeyPair Bytes LocalWallet : Type 0}
    → Option KeyPair
    → Bool
    → Option Bytes
    → (Bytes → Option LocalWallet)
    → Result ServerError (Keys KeyPair LocalWallet)
new none bound bytes from_bytes = err key
new (some azero_key) false bytes from_bytes = err io
new (some azero_key) true none from_bytes = err hex
new (some azero_key) true (some eth_key) from_bytes = elim (from_bytes eth_key) [
  | none ↦ err wallet_error
  | some eth_wallet ↦ ok (record { azero_key = azero_key; eth_wallet = eth_wallet })
]

module _ (wallet : Wallet) where
  -- `do_handle_client`: the responses that are sent to one client for the commands received from it,
  -- until a command is not received, a response not sent (the second part of a pair), or the wallet
  -- fails.
  unfoldable pub do_handle_client : List (Option (Command wallet) × Bool) → List (Response wallet)
  do_handle_client [] = []
  do_handle_client ((none, sent) ∷ rest) = []
  do_handle_client ((some command, sent) ∷ rest) = elim (answer wallet command) [
    | none ↦ []
    | some response ↦ elim sent [ true ↦ response ∷ do_handle_client rest | false ↦ [] ]
  ]

  -- `accept_loop`: every client that is accepted is served with the same keys.
  unfoldable pub accept_loop :
      List (List (Option (Command wallet) × Bool)) → List (List (Response wallet))
  unfolding do_handle_client
  accept_loop clients = map do_handle_client clients
