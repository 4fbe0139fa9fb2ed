-- ===== src/Sendworker/Interface.antt =====
-- The two workers of worker.go as implementations of the interface that the sending loops use.
use apminsight_server_sdk_go.Prelude.{refl, some, arith, length, ◌==◌, if◌then◌else◌}
use apminsight_server_sdk_go.Sendworker.Encoder.{encode_pre_allocated}
use apminsight_server_sdk_go.Sendworker.Encoder.Frame.{length-encode_pre_allocated}
use apminsight_server_sdk_go.Sendworker.Worker
use apminsight_server_sdk_go.Sendworker.Worker.{
  Net, datagram_batch_send, stream_batch_send, close_conn,
}
use apminsight_server_sdk_go.SendLoop.{SendWorker}

-- BatchSend of DatagramWorker writes the slice and leaves it as it is.
unfoldable pub datagram_worker : Net → SendWorker
datagram_worker net = record {
  Worker = Worker.Worker;
  batch_send = λ w d tags. (datagram_batch_send net w (some d), d);
  close_conn = close_conn;
  keeps_length = λ w d tags. refl;
}

-- BatchSend of StreamWorker encodes into the slice itself, unless it is empty.
unfoldable pub stream_worker : Net → SendWorker
stream_worker net = record {
  Worker = Worker.Worker;
  batch_send = λ w d tags.
      (stream_batch_send net w d tags, if length d == 0 then d else encode_pre_allocated d tags);
  close_conn = close_conn;
  keeps_length = λ w d tags. ground (arith, length-encode_pre_allocated d tags);
}
