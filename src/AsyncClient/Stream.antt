-- ===== src/AsyncClient/Stream.antt =====
-- async_grpc/async_client.h, AsyncClient<..., SERVER_STREAMING>: what its callback sees, and what it
-- asks of gRPC.
use async_flatbuffer_grpc.Prelude.{
  refl, Bool, true, false, none, some, List, [], ◌∷◌, ◌++◌, Result, ok, ◌>>=◌,
}
use async_flatbuffer_grpc.AsyncClient.{
  ClientEvent, finish, read, write, ClientApi, ReaderOp, Notification, AsyncClient, new_client,
  stream_write_async, Completion, complete,
}
use async_flatbuffer_grpc.AsyncClient.Invariant.{Inv, follow_up}

module _ (api : ClientApi) where
  -- Each completion of a list, and the operations that the events call for.
  pub handle_all : List (Completion api) → AsyncClient api → Result (AsyncClient api)
  handle_all [] c = ok c
  handle_all (e ∷ es) c = do c' ← complete e c; handle_all es c'

  abbrev pub follow_ups : List (Completion api) → List (ReaderOp api)
  follow_ups [] = []
  follow_ups (e ∷ es) = follow_up api e.event e.is_ok ++ follow_ups es

  -- What a callback that is set is told: the message of each READ that is ok, up to the first WRITE
  -- that is not or the first FINISH.
  abbrev news :
      ClientEvent → Bool → api.Response → List (Notification api) → List (Notification api)
  news write true m later = later
  news write false m later = (api.write_failed, none) ∷ []
  news read true m later = (api.ok_status, some m) ∷ later
  news read false m later = later
  news finish true m later = (api.ok_status, none) ∷ []
  news finish false m later = (api.finish_failed, none) ∷ []

  abbrev pub all_news : List (Completion api) → List (Notification api)
  all_news [] = []
  all_news (e ∷ es) = news e.event e.is_ok e.message (all_news es)

  abbrev heard : Bool → List (Notification api) → List (Notification api)
  heard true ns = ns
  heard false ns = []

  pub write_async-Inv :
      (empty_response : api.Response) (request : api.Request)
      → Inv api (stream_write_async request (new_client true empty_response))
  unfolding stream_write_async new_client
  write_async-Inv empty_response request = record { has_reader = refl; told = tt }
