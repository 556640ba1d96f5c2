-- ===== src/Client/Streams.antt =====
-- async_grpc/client.h, the streaming classes.
use async_flatbuffer_grpc.Prelude.{
  ◌≡◌, refl, Bool, true, false, Option, none, some, List, [], ◌∷◌, Result, ok, fault, check_failed,
  ◌>>=◌, map,
}
use async_flatbuffer_grpc.Client.{
  StreamApi, StreamClient, new_client, instantiate_if_needed, stream_write, stream_writes_done,
  stream_finish, stream_read, server_stream_write, server_stream_read, server_stream_finish,
}

-- The calls of a client-streaming or a bidirectional client.
pub data StreamOp (api : StreamApi) : Type 0 where
  writes : api.Request → StreamOp api
  writes_are_done : StreamOp api
  finishes : StreamOp api
  reads : StreamOp api

-- What a call answers. A Write answers a Boolean and sets a status.
pub data Answer (api : StreamApi) : Type 0 where
  wrote : Bool → api.Status → Answer api
  done : Bool → Answer api
  finished : api.Status → Answer api
  got : Option api.Response → Answer api

module _ (api : StreamApi) where
  client_op : StreamClient api → StreamOp api → StreamClient api × Answer api
  client_op c (writes request) = let r = stream_write api c request in (r.0, wrote r.1 r.2)
  client_op c writes_are_done = let r = stream_writes_done api c in (r.0, done r.1)
  client_op c finishes = let r = stream_finish api c in (r.0, finished r.1)
  client_op c reads = let r = stream_read api c in (r.0, got r.1)

  -- The same call on a stream of gRPC. A Write is taken for a success, whatever the stream answered.
  stream_op : api.Stream → StreamOp api → api.Stream × Answer api
  stream_op s (writes request) =
      ((api.write s request).0, wrote (api.is_ok api.default_status) api.default_status)
  stream_op s writes_are_done = let r = api.writes_done s in (r.0, done r.1)
  stream_op s finishes = let r = api.finish s in (r.0, finished r.1)
  stream_op s reads = let r = api.read s in (r.0, got r.1)

  pub client_run : StreamClient api → List (StreamOp api) → StreamClient api × List (Answer api)
  client_run c [] = (c, [])
  client_run c (o ∷ os) =
      let r = client_op c o in let rest = client_run r.0 os in (rest.0, r.1 ∷ rest.1)

  pub stream_run : api.Stream → List (StreamOp api) → api.Stream × List (Answer api)
  stream_run s [] = (s, [])
  stream_run s (o ∷ os) =
      let r = stream_op s o in let rest = stream_run r.0 os in (rest.0, r.1 ∷ rest.1)

  client_op_lem :
      (c : StreamClient api) (o : StreamOp api)
      → let r = stream_op (instantiate_if_needed api c) o in
        client_op c o ≡ (record { stream = some (r.0) }, r.1)
  unfolding client_op stream_op stream_write stream_writes_done stream_finish stream_read
  client_op_lem c (writes request) = refl
  client_op_lem c writes_are_done = refl
  client_op_lem c finishes = refl
  client_op_lem c reads = refl

  client_run_lem :
      (s : api.Stream) (os : List (StreamOp api))
      → let r = stream_run s os in
        client_run (record { stream = some s }) os ≡ (record { stream = some (r.0) }, r.1)
  unfolding client_run stream_run instantiate_if_needed
  client_run_lem s [] = refl
  client_run_lem s (o ∷ os) =
      rw (client_op_lem (record { stream = some s }) o)
        (rw (client_run_lem (stream_op s o).0 os) refl)

  -- A new client-streaming or bidirectional client, over any calls of Write, StreamWritesDone,
  -- StreamFinish and StreamRead, at least one, is one stream of gRPC made by the factory and driven
  -- by these calls in order: it ends with that stream, and passes on its answers to all calls but
  -- Write. Each Write reports Status() and whether that is a success, also where the stream refused
  -- the request.
  pub client_run_stream :
      (o : StreamOp api) (os : List (StreamOp api))
      → let r = stream_run api.create (o ∷ os) in
        client_run (new_client api) (o ∷ os) ≡ (record { stream = some (r.0) }, r.1)
  unfolding client_run stream_run instantiate_if_needed new_client
  client_run_stream o os =
      rw (client_op_lem (record { stream = none }) o)
        (rw (client_run_lem (stream_op api.create o).0 os) refl)

  -- The calls of a server-streaming client after its Write.
  server_op : StreamClient api → Bool → Result (StreamClient api × Answer api)
  server_op c true = do r ← server_stream_read api c; ok (r.0, got r.1)
  server_op c false = do r ← server_stream_finish api c; ok (r.0, finished r.1)

  -- A list of calls: true is StreamRead, false is StreamFinish.
  pub server_run : StreamClient api → List Bool → Result (StreamClient api × List (Answer api))
  server_run c [] = ok (c, [])
  server_run c (o ∷ os) = do r ← server_op c o; rest ← server_run r.0 os; ok (rest.0, r.1 ∷ rest.1)

  abbrev pub as_op : Bool → StreamOp api
  as_op true = reads
  as_op false = finishes

  server_op_lem :
      (s : api.Stream) (o : Bool)
      → let r = stream_op s (as_op o) in
        server_op (record { stream = some s }) o ≡ ok (record { stream = some (r.0) }, r.1)
  unfolding server_op stream_op server_stream_read server_stream_finish
  server_op_lem s true = refl
  server_op_lem s false = refl

  server_run_lem :
      (s : api.Stream) (os : List Bool)
      → let r = stream_run s (map as_op os) in
        server_run (record { stream = some s }) os ≡ ok (record { stream = some (r.0) }, r.1)
  unfolding server_run stream_run
  server_run_lem s [] = refl
  server_run_lem s (o ∷ os) =
      rw (server_op_lem s o) (rw (server_run_lem (stream_op s (as_op o)).0 os) refl)

  -- A server-streaming client: before a Write, StreamRead and StreamFinish fail their CHECK; after a
  -- Write of a request no CHECK fails over any sequence of the two, and the client is the stream that
  -- the factory made for that request, driven by these calls in order.
  pub server_run_after_write :
      (c : StreamClient api) (request : api.Request) (os : List Bool) (o : Bool)
      → (server_run (new_client api) (o ∷ os) ≡ fault check_failed)
        × (let r = stream_run (api.create_with request) (map as_op os) in
            server_run (server_stream_write api c request).0 os
            ≡ ok (record { stream = some (r.0) }, r.1))
  unfolding server_run server_op server_stream_read server_stream_finish server_stream_write
      new_client
  server_run_after_write c request os true = (refl, server_run_lem (api.create_with request) os)
  server_run_after_write c request os false = (refl, server_run_lem (api.create_with request) os)
