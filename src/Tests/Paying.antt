-- ===== src/Tests/Paying.antt =====
-- A request that the node agrees to, for the swap of Tests/Erc20.antt, from chain 1 to chain 56.
use check_tx_server.Common.{String, [], decimal, false, if◌then◌else◌, none, some, str_eq, ◌∷◌}
use check_tx_server.Errors.{TokenError, token}
use check_tx_server.Eth.{Net}
use check_tx_server.Eth.Raw.{RawTx}
use check_tx_server.Eth.Verify.Sound.{Sound}
use check_tx_server.Exec.{ok}
use check_tx_server.Tests.Accepting.{others, request}
use check_tx_server.Tests.Building.{here}
use check_tx_server.Tests.Erc20.{chain}
use check_tx_server.Tests.Fixtures.{env}
use check_tx_server.Tests.Jobs.{bridge, setup}
use check_tx_server.Tests.Raw.{calls, fees, settled, start}
use check_tx_server.Worker.{Bridge}
use check_tx_server.Worker.Accept.{Node}
use check_tx_server.Worker.Accept.Judge.OnEth.{on_eth}
use check_tx_server.Worker.Accept.Judge.Paid.{builds_on_eth}
use check_tx_server.Eth
use check_tx_server.Db

abbrev dst : Bridge
dst = record bridge {
  verify_msg_hash =
      λ raw hashes. if str_eq raw "7" then none else some (token TokenError.not_found);
}

abbrev text : RawTx → String
text tx = decimal tx.nonce

abbrev destination : Bridge
destination = builds_on_eth env settled here fees calls ok ok text start dst

abbrev node : Node
node = record {
  setup = record setup {
    bridges = ("1", on_eth settled (chain "1" 1) others bridge) ∷ ("56", destination) ∷ [];
  };
  mpc_initiators = "0xinit" ∷ [];
  is_pending_invalid_accept = false;
  unmarshal = λ s. some request;
  do_accept_sign = λ t a. none;
  put_fails = λ t. false;
}
