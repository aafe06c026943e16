-- ===== src/Cocoon/Models/RoundTrip.antt =====
-- What a proxy writes of its workers and of a payment is what the client decodes.
use gocoon.Common.{ℕ, ◌^◌, ◌<◌, ◌≡◌, Bytes, List, [], ◌∷◌, map, length, All, arith}
use gocoon.Common.Int.{IsInt32}
use gocoon.Tl.Reader.{Parser, ok, ◌>>=◌, pure}
use gocoon.Tl.Writer.{Writer, write_uint32, write_flags, write_int32, write_string}
use gocoon.Tl.Codec.{Codec, Codec-bind, Codec-pure, Codec-whole}
use gocoon.Tl.Codec.Fixed.{uint32-Codec, flags-Codec, int32-Codec}
use gocoon.Tl.Codec.Blob.{string-Codec}
use gocoon.Tl.Vector.{read_vector_len, read_items, write_items}
use gocoon.Tl.Constants.{id_client_worker_types_v2}
use gocoon.Cocoon.Handshake.Wire.{written}
use gocoon.Cocoon.Handshake.Decode.{lift-Codec}
use gocoon.Cocoon.Models.{
  WorkerInstance, WorkerType, read_worker, read_worker_type, advertised, worker_types_body,
  worker_types_parser, decode_worker_types_v2,
}

-- Items whose decoded form has less than what is written.
module _ {ℓ κ μ} {E : Type 0} {A : Type ℓ} {W : Type κ} {P : W → Type μ}
    {write : W → Writer → Writer} {p : Parser E A} (v : W → A)
    (item : (w : W) → P w → Codec (write w) p (v w)) where
  mapped-Codec :
      (ws : List W) → All P ws → Codec (write_items write ws) (read_items p (length ws)) (map v ws)
  unfolding read_items write_items
  mapped-Codec [] h = Codec-pure []
  mapped-Codec (w ∷ ws) h =
      Codec-bind (λ y. read_items p (length ws) >>= λ ys. pure (y ∷ ys)) (item w h.0)
        (Codec-bind (λ ys. pure (v w ∷ ys)) (mapped-Codec ws h.1) (Codec-pure (v w ∷ map v ws)))

-- A worker with its flags, and a model with its workers.
abbrev pub Worker : Type 0
Worker = ℕ × WorkerInstance

abbrev pub WorkerFits : Worker → Type 0
WorkerFits (flags, w) =
    (flags < 2 ^ 32)
    × IsInt32 w.coefficient
    × IsInt32 w.active_requests
    × IsInt32 w.max_active_requests

write_worker : Worker → Writer → Writer
write_worker (flags, w) x =
    write_int32 w.max_active_requests
      (write_int32 w.active_requests (write_int32 w.coefficient (write_flags flags x)))

abbrev pub instance_of : Worker → WorkerInstance
instance_of (flags, w) = w

abbrev pub Model : Type 0
Model = Bytes × List Worker

abbrev pub ModelFits : Model → Type 0
ModelFits (name, ws) = (length name < 2 ^ 24) × (length ws < 2 ^ 32) × All WorkerFits ws

write_model : Model → Writer → Writer
unfolding write_worker
write_model (name, ws) x =
    write_items write_worker ws (write_uint32 (length ws) (write_string name x))

abbrev pub type_of : Model → WorkerType
type_of (name, ws) = record { name = name; workers = map instance_of ws }

pub write_models : List Model → Writer → Writer
unfolding write_model
write_models ms x =
    write_items write_model ms (write_uint32 (length ms) (write_uint32 id_client_worker_types_v2 x))

worker-Codec : (w : Worker) → WorkerFits w → Codec (write_worker w) read_worker (instance_of w)
unfolding write_worker read_worker
worker-Codec (flags, w) h = Codec-bind _ (lift-Codec (flags-Codec flags h.0)) (
    Codec-bind _ (lift-Codec (int32-Codec w.coefficient h.1)) (
      Codec-bind _ (lift-Codec (int32-Codec w.active_requests h.2))
        (Codec-bind _ (lift-Codec (int32-Codec w.max_active_requests h.3)) (Codec-pure _))))

model-Codec : (m : Model) → ModelFits m → Codec (write_model m) read_worker_type (type_of m)
unfolding write_model read_worker_type read_vector_len
model-Codec (name, ws) h = Codec-bind _ (lift-Codec (string-Codec name h.0)) (
    Codec-bind _ (lift-Codec (uint32-Codec (length ws) h.1))
      (Codec-bind _ (mapped-Codec instance_of worker-Codec ws h.2) (Codec-pure _)))

models-Codec :
    (m : Model) (ms : List Model)
    → length (m ∷ ms) < 2 ^ 32
    → All ModelFits (m ∷ ms)
    → Codec (write_models (m ∷ ms)) worker_types_parser (map type_of (m ∷ ms))
unfolding write_models worker_types_body read_vector_len
models-Codec m ms n h = Codec-bind worker_types_body (lift-Codec (uint32-Codec _ (omega arith))) (
    Codec-bind _ (lift-Codec (uint32-Codec (length (m ∷ ms)) n))
      (Codec-bind advertised (mapped-Codec type_of model-Codec (m ∷ ms) h) (Codec-pure _)))

-- The client decodes a client.workerTypesV2 that a proxy writes, with at least one model, to the
-- models in order, each with its name and its workers, without their flags, and uses up every
-- byte, where names are below 2^24 bytes, lists below 2^32 items and the numbers of a worker
-- int32.
pub decode_worker_types_v2-write_models :
    (m : Model) (ms : List Model)
    → length (m ∷ ms) < 2 ^ 32
    → All ModelFits (m ∷ ms)
    → decode_worker_types_v2 (written (write_models (m ∷ ms)))
      ≡ ok (map type_of (m ∷ ms)) (record {
        buf = written (write_models (m ∷ ms));
        pos = length (written (write_models (m ∷ ms)));
      })
unfolding decode_worker_types_v2
decode_worker_types_v2-write_models m ms n h = Codec-whole (models-Codec m ms n h)
