-- ===== src/Client.antt =====
-- internal/rabbitmqclient: the interface of the RabbitMQ management client, its errors, and the
-- helpers that compare and convert settings.
pub mod Types
pub mod Utilities
pub mod Arguments
pub mod Comparisons
pub mod Requests
pub mod Bounds
pub mod Memory
mod Tests
use provider_rabbitmq.Prelude.{Bool, false, Option, none, some, List, Str, ◌==◌}
use provider_rabbitmq.Go.Error.{Error, ErrorResponse, as_response}
use Types.{
  Result, Response, Permissions, PermissionInfo, ExchangeSettings, DetailedExchangeInfo,
  VhostSettings, VhostInfo, UserSettings, UserInfo, BindingInfo, QueueSettings, DetailedQueueInfo,
}

-- `RabbitMQClient`: each call against the state `W` of the server. Reading leaves the state as it is;
-- a call that writes returns the new state, also when it fails.
pub record RabbitMqClient (W : Type 0) : Type 0 where
  pub update_permissions_in : Str → Str → Permissions → W → Result Response × W
  pub get_permissions_in : Str → Str → W → Result PermissionInfo
  pub clear_permissions_in : Str → Str → W → Result Response × W
  pub get_exchange : Str → Str → W → Result DetailedExchangeInfo
  pub declare_exchange : Str → Str → ExchangeSettings → W → Result Response × W
  pub delete_exchange : Str → Str → W → Result Response × W
  pub get_vhost : Str → W → Result VhostInfo
  pub put_vhost : Str → VhostSettings → W → Result Response × W
  pub delete_vhost : Str → W → Result Response × W
  pub get_user : Str → W → Result UserInfo
  pub put_user : Str → UserSettings → W → Result Response × W
  pub put_user_without_password : Str → UserSettings → W → Result Response × W
  pub delete_user : Str → W → Result Response × W
  pub list_queue_bindings_between : Str → Str → Str → W → Result (List BindingInfo)
  pub list_exchange_bindings_between : Str → Str → Str → W → Result (List BindingInfo)
  pub declare_binding : Str → BindingInfo → W → Result Response × W
  pub delete_binding : Str → BindingInfo → W → Result Response × W
  pub list_bindings_in : Str → W → Result (List BindingInfo)
  pub get_queue : Str → Str → W → Result DetailedQueueInfo
  pub declare_queue : Str → Str → QueueSettings → W → Result Response × W
  pub delete_queue : Str → Str → W → Result Response × W

has_status : Option ErrorResponse → Bool
has_status none = false
has_status (some r) = r.status_code == 404

-- `IsNotFoundError`: an answer 404 of the server, wrapped or not.
unfoldable pub is_not_found_error : Error → Bool
unfolding as_response has_status
is_not_found_error err = has_status (as_response err)
