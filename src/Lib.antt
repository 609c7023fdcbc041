-- ===== src/Lib.antt =====
-- SideSwap client: the trading core of the repository's Rust crates.
--
-- Parts, and the files that model them:
-- - Prelude (Tests, Lists, Int64, Float, FixedPoint, Key, Decimal, Map): shared types. A 64-bit
--   integer is its bit pattern, a number below 2^64, and wraps as a release build does (Int64).
--   `f64` is an abstract type with the operations that the code uses (Float); no law is assumed of
--   it but where a theorem names one. FixedPoint is a concrete instance for examples only. `BTreeMap`
--   is an association list with the keys in order (Map) over an instance for keys (Key). Decimal has
--   numbers as text.
-- - Ticker: `DealerTicker`, its names and `ticker_from_string` of rust/sideswap_dealer/src/dealer.rs.
-- - Utxo (Vec, Order, Trim, Selection, Values, Tests): `select_utxo` and `select_utxo_values` of
--   rust/sideswap_common/src/types.rs, with the methods of `Vec` that they call. The loops run on
--   fuel: `select_loop` on the number of inputs, since each round takes one, and `trim_loop` on the
--   length of the result, since each round drops one.
-- - Balancing (Types, Decide, Process, Runs, and the proofs Decide/Laws, Diagram, Spending, Safety,
--   Evidence, with Tests): the transfers between the wallet and the exchange, of
--   rust/sideswap_dealer_bitfinex/src/balancing.rs and storage.rs. `process_balancing`,
--   `process_withdraw`, `process_transfer` and `process_movements` keep their names; the start of a
--   transfer by the command line is `start` (main.rs). Each handler takes the storage and returns
--   the new one with the effects in their order (`Action`), or `none` for a panic; `step` and `run`
--   put the handlers in sequence as the main loop does.
-- - Headless (Types, Requests, Submit, Worker, and the proofs Reserved, Exclusive, Isolation,
--   Ledger, Outage, Answers, with Tests): the order worker of
--   rust/sideswap_headless_server/src/worker.rs. `Data` is its state; the messages that the channels
--   carry away are lists in it. A closure of `make_async_request` is a constructor of `Callback`
--   with what it captures. `step` is one round of the main loop, `run` the loop on a list of
--   messages; `none` is a panic. `process_submit_inputs` calls `select_utxo_values` of Utxo. The
--   matches on a looked-up value are functions of their own: `submit_from`, `complete_active`,
--   `remove_order`, `take_answer`.
-- - Headless (Wallet, System, and the proofs Quiet, Steady, Moves, Counting, Signing, Guarded,
--   Approval): the wallet's thread of wallet.rs, where `round` is one round of its loop, and both
--   threads with the channels between them as main.rs starts them. `happen` is one event,
--   `run_system` a sequence of them in any order.
-- - Wallet (Checks): `verify_and_sign_pset` of rust/sideswap_client/src/gdk_ses_impl.rs with `Amounts`
--   of swaps.rs. What GDK answers is a record, `Gdk`.
-- - Payjoin (Types, Plan, Pset, and the proofs Funding, Assets, Fees, Balance, Signing, with Tests):
--   `create_payjoin` of rust/sideswap_payjoin/src/lib.rs between the server's answer and the PSET
--   (`plan`), with the checks before the request, and `construct_pset`; network_fee.rs; and pset.rs.
--   `randomize_and_blind_pset` up to `blind_last` is `arrange`; the cryptography and the shuffles
--   are a record, `Library`.
-- - Dealer (Types, Prices, Psets, Own, State, Reload, Timer, Worker, and the proofs Replies, Trades,
--   OwnOrders, Safety, Messages, Runs, Taking, Funding, Signing, with Tests): the worker of
--   rust/sideswap_dealer/src/dealer.rs. `State` holds the variables of its loop, with the lists of
--   what was sent to the server (`sent`), to itself (`queued`) and to its owner (`reported`). `step`
--   is one message of the loop, `run` the loop on a list of messages, `start` the assertions and the
--   state before it. What comes from outside while a message is handled is a record, `Outside`: the
--   answer of the server to each request, the wallet's RPC, the elements library, the clock. A call
--   that may fail is a `Reply`, which tells an error from a panic; a panic of a handler is `none`.
--   The match in `update_price` is `update_own`, and its arms `submit_order` and `edit_order`; the
--   loop of `Timer` is `take_orders`, one round of it `visit_order`.
-- - Ws (Auto, and the proofs Protocol, Queue, Silence, Delays, with Tests): the websocket client of
--   rust/sideswap_common/src/ws/auto.rs, with the constants of ws.rs. `step` is one event: a request
--   put in the channel, an attempt to connect, or a branch of `select!`; `run` is a sequence of them.
--   The two channels of requests in a row are one queue.
-- - Env (Agreement, Tests): the constants and lookups of rust/sideswap_common/src/env.rs.
-- - Jade (Stream, Cbor, Messages, Port, Worker, Serial, and the proofs Fields, RoundTrip, Keys,
--   Settle, Fresh, Work, Requests, Decoding, Parsing, Messaging, with Tests): the driver of the
--   hardware wallet, rust/sideswap_jade/src. Jade itself is the buffer `BufReader` of reader.rs, and
--   Stream sequences of its methods (`call`, `run`); its `data` is the field `data_read`. Messages
--   has the types of lib.rs and models.rs; Cbor `json_to_cbor` and `cbor_to_json`; Port
--   `handle_port_msg` with an arm for each kind of request (`on_sign_tx` and the others); Worker the
--   loop `worker`, with a function for each request (`ask_sign_tx` and the others). What was sent to
--   the device and given to the callback are lists in `State`. Serial is the reading half of the
--   port's thread (serial.rs): the CBOR reader is a `Decoder`, any program that asks for bytes by
--   `read_exact`. The loop over complete messages has as much fuel as the buffer has bytes, and one,
--   which is enough since each message takes a byte.
--
-- How the parts interact: the workers of Headless and of Dealer choose their inputs with Utxo; the
-- wallet's thread of Headless signs by Wallet. The dealer of the exchange runs Dealer beside
-- Balancing, and both name assets by Ticker. Payjoin, Ws, Env and Jade stand by themselves.
--
-- Not modelled: sockets, HTTP, logging and timers; the wallet library GDK and the `elements` library
-- (their results are arguments); the serialisation of messages; the main loops of the clients
-- and of the exchange's dealer; the mobile and desktop application and its bindings.
pub mod Prelude
pub mod Ticker
pub mod Utxo
pub mod Balancing
pub mod Headless
pub mod Payjoin
pub mod Env
pub mod Jade
pub mod Dealer
pub mod Ws
pub mod Wallet
