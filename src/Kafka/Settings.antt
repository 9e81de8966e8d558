-- ===== src/Kafka/Settings.antt =====
-- kafka/config.go, kafka/auth.go and kafka/consts.go: the configuration of a client and its defaults.
use dora_service_utils.Base.{List, []}
use dora_service_utils.Base.Text.{Str, codes}

pub record Auth : Type 0 where
  pub username : Str
  pub password : Str

pub record Config : Type 0 where
  pub brokers : List Str
  pub order_topic : Str
  pub order_status_topic : Str
  pub order_snapshots_topic : Str
  pub matched_order_topic : Str
  pub order_book_admin_topic : Str
  pub order_book_status_topic : Str
  pub order_book_updates_topic : Str
  pub order_book_snapshot_topic : Str
  pub order_book_requests_topic : Str
  pub assets_request_topic : Str
  pub asset_snapshot_topic : Str
  pub asset_update_topic : Str
  pub user_ledger_requests_topic : Str
  pub user_ledger_snapshots_topic : Str
  pub user_ledger_updates_topic : Str
  pub leverage_requests_topic : Str
  pub leverage_snapshots_topic : Str
  pub leverage_updates_topic : Str
  pub pool_liquidity_requests_topic : Str
  pub pool_liquidity_snapshots_topic : Str
  pub pool_liquidity_updates_topic : Str
  pub transactions_topic : Str
  pub add_transaction_request_topic : Str
  pub add_transaction_response_topic : Str
  pub trades_request_topic : Str
  pub trades_response_topic : Str
  pub trades_update_topic : Str
  pub last_traded_price_topic : Str
  pub candles_update_topic : Str
  pub candles_request_topic : Str
  pub candles_snapshot_topic : Str
  pub dollar_prices_update_topic : Str
  pub dollar_prices_request_topic : Str
  pub dollar_prices_snapshot_topic : Str
  pub authentication : Auth

abbrev pub default_config : Config
default_config = record {
  brokers = [];
  order_topic = codes "dora.network.orders.incoming";
  order_status_topic = codes "dora.network.orders.status.updates";
  order_snapshots_topic = codes "dora.network.orders.snapshots";
  matched_order_topic = codes "dora.network.orders.matched";
  order_book_admin_topic = codes "dora.network.orderbook.admin";
  order_book_status_topic = codes "dora.network.orderbook.status";
  order_book_updates_topic = codes "dora.network.orderbook.updates";
  order_book_snapshot_topic = codes "dora.network.orderbook.snapshots";
  order_book_requests_topic = codes "dora.network.orderbook.requests";
  assets_request_topic = codes "dora.network.assets.requests";
  asset_snapshot_topic = codes "dora.network.assets.snapshots";
  asset_update_topic = codes "dora.network.assets.updates";
  user_ledger_requests_topic = codes "dora.network.user.ledger.requests";
  user_ledger_snapshots_topic = codes "dora.network.user.ledger.snapshots";
  user_ledger_updates_topic = codes "dora.network.user.ledger.updates";
  leverage_requests_topic = codes "dora.network.leverage.requests";
  leverage_snapshots_topic = codes "dora.network.leverage.snapshots";
  leverage_updates_topic = codes "dora.network.leverage.updates";
  pool_liquidity_requests_topic = codes "dora.network.pool.liquidity.requests";
  pool_liquidity_snapshots_topic = codes "dora.network.pool.liquidity.snapshots";
  pool_liquidity_updates_topic = codes "dora.network.pool.liquidity.updates";
  transactions_topic = codes "dora.network.transactions";
  add_transaction_request_topic = codes "dora.network.add.transactions.request";
  add_transaction_response_topic = codes "dora.network.add.transactions.response";
  trades_request_topic = codes "dora.network.trades.request";
  trades_response_topic = codes "dora.network.trades.response";
  trades_update_topic = codes "dora.network.trades.updates";
  last_traded_price_topic = codes "dora.network.last.traded.price";
  candles_update_topic = codes "dora.network.candles.updates";
  candles_request_topic = codes "dora.network.candles.request";
  candles_snapshot_topic = codes "dora.network.candles.snapshot";
  dollar_prices_update_topic = codes "dora.network.prices.updates";
  dollar_prices_request_topic = codes "dora.network.prices.request";
  dollar_prices_snapshot_topic = codes "dora.network.prices.snapshot";
  authentication = record { username = []; password = [] };
}
