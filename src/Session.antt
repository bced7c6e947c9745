-- ===== src/Session.antt =====
-- include/wshttp/session.hpp and src/session.cpp: the sessions, one for each connection.
-- This file has their state; the children have the hooks that nghttp2 calls, the transfer of data,
-- and the set-up.
pub mod Hooks
pub mod Transfer
pub mod Setup
pub mod Streams
pub mod Outbound
pub mod Traffic
pub mod Driving
pub mod Paths
pub mod Blindness
pub mod Answers
pub mod Connection
use wshttp.Prelude.{ℕ, String, Bool, false, Option, none, List, []}
use wshttp.Address.Ip.{PathPair}
use wshttp.Request.{Setting}
use wshttp.Stream.{Io, Stream}
use wshttp.Address.Ip.{IpAddress}

-- The jobs that a session posts to the event loop by `call_soon`: the listener, or the node, is to
-- close the session.
pub data Posted : Type 0 where
  listener_close_session : (remote : IpAddress) → Posted
  node_close_session : (host : String) → Posted

-- The callbacks that a session registers.
pub data Callback : Type 0 where
  on_stream_close send_data on_frame_recv on_begin_headers on_header on_data_chunk_recv : Callback

-- What the session configured in its `nghttp2_session`.
pub record Http2 : Type 0 where
  pub callbacks : List Callback
  pub no_recv_client_magic : Bool
  pub settings : List Setting

-- `session_base` with the members of its two subclasses; `dir` is `_is_outbound`, and an `fd` of -1
-- is `none`. A `shared_ptr`
-- to a stream that is null is `none`. `user_data` is what nghttp2 keeps for the session: for the
-- id of a stream, the key under which `streams` holds the object that it points to.
pub record Session : Type 0 where
  pub dir : Io
  pub fd : Option ℕ
  pub ends : PathPair
  pub host : String
  pub has_ssl : Bool
  pub has_bev : Bool
  pub enabled : Bool
  pub http2 : Option Http2
  pub streams : List (ℕ × Option Stream)
  pub user_data : List (ℕ × ℕ)
  pub output : List ℕ
  pub posted : List Posted

-- The state after the constructor's initialisers.
unfoldable pub new_session : Io → Option ℕ → PathPair → String → Session
new_session dir fd ends host = record {
  dir = dir;
  fd = fd;
  ends = ends;
  host = host;
  has_ssl = false;
  has_bev = false;
  enabled = false;
  http2 = none;
  streams = [];
  user_data = [];
  output = [];
  posted = [];
}
