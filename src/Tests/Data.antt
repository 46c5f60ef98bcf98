-- ===== src/Tests/Data.antt =====
-- Configurations, requests and queues that the other tests run on.
use sdr_server.Prelude.{◌==◌, refl, none, some, [], ◌∷◌, if◌then◌else◌, true, false, arith}
use sdr_server.Prelude.Int.{pos}
use sdr_server.Config.{ServerConfig, native_cf32}
use sdr_server.Wire.{Request, MessageHeader}
use sdr_server.Queue.{Queue, QueueNode, Heap, Ptr}
use sdr_server.Queue.View.{QueueView, Represents, Layout}
use sdr_server.Server.{ClientConfig}
use sdr_server.Server.Admission.{Node, started}

abbrev pub server_config : ServerConfig
server_config = record {
  bind_address = "127.0.0.1";
  port = pos 8090;
  read_timeout_seconds = pos 5;
  device_serial = none;
  optimization = native_cf32;
  sdr_type = pos 0;
  device_index = pos 0;
  rtl = record { bias_t = pos 0; gain_mode = pos 1; gain = pos 42; ppm = pos 0 };
  airspy = record {
    gain_mode = pos 3;
    vga_gain = pos 5;
    mixer_gain = pos 0;
    lna_gain = pos 1;
    linearity_gain = pos 0;
    sensitivity_gain = pos 0;
  };
  hackrf = record { bias_t = 0; amp = pos 0; lna_gain = pos 16; vga_gain = pos 16 };
  msisdr = record {
    gain_mode = pos 1;
    gain = pos 40;
    if_freq = pos 0;
    bandwidth = 0;
    hw_flavour = pos 0;
  };
  buffer_size = 262144;
  band_sampling_rate = 2400000;
  queue_size = pos 64;
  lpf_cutoff_rate = pos 5;
  base_path = "/tmp";
  use_gzip = true;
}

abbrev pub request : Request
request = record {
  center_freq = 437000000;
  sampling_rate = 48000;
  band_freq = 437500000;
  destination = 1;
}

abbrev pub request_header : MessageHeader
request_header = record { protocol_version = 0; type = 0 }

abbrev pub client : ClientConfig
client = record {
  center_freq = 437000000;
  sampling_rate = 48000;
  band_freq = 437500000;
  destination = 1;
  client_socket = 7;
  id = 1;
  sdr_type = pos 0;
  is_running = true;
}

-- A queue of two buffers of four bytes, both free.
abbrev pub free_node : Ptr → QueueNode
free_node p = record { buffer = 0 ∷ 0 ∷ 0 ∷ 0 ∷ []; len = 0; next = p }

abbrev pub two_nodes : Heap
two_nodes p = if p == 1 then some (free_node 2) else if p == 2 then some (free_node 0) else none

abbrev pub two_buffers : Queue
two_buffers = record {
  first_free_node = 1;
  last_free_node = 2;
  first_filled_node = 0;
  last_filled_node = 0;
  detached_node = 0;
  poison_pill = false;
  heap = two_nodes;
}

abbrev pub two_free : QueueView
two_free = record { free = 2; filled = []; detached = false; poisoned = false }

pub two_buffers-Layout : Layout 4 two_buffers (1 ∷ 2 ∷ []) [] []
two_buffers-Layout = record {
  free = (
    refl,
    refl,
    (
      free_node 2,
      record { ne_null = λ e. omega (arith, e); holds = refl; capacity = refl },
      (
        refl,
        refl,
        (
          free_node 0,
          record { ne_null = λ e. omega (arith, e); holds = refl; capacity = refl },
          refl,
        ),
      ),
    ),
  );
  free_end = refl;
  filled = refl;
  filled_end = refl;
  detached = refl;
  single = omega arith;
  free_filled = λ a e. refl;
  free_detached = λ a e. refl;
  filled_detached = λ a e. refl;
}

pub two_buffers-Represents : Represents 4 2 two_buffers two_free
two_buffers-Represents = (1 ∷ 2 ∷ [], [], [], two_buffers-Layout, refl, refl)

-- One buffer, which is being processed.
abbrev pub busy_buffer : Queue
busy_buffer = record {
  first_free_node = 0;
  last_free_node = 0;
  first_filled_node = 0;
  last_filled_node = 0;
  detached_node = 2;
  poison_pill = false;
  heap = two_nodes;
}

abbrev pub busy : QueueView
busy = record { free = 0; filled = []; detached = true; poisoned = false }

pub busy_buffer-Represents : Represents 4 1 busy_buffer busy
busy_buffer-Represents = (
  [],
  [],
  2 ∷ [],
  record {
    free = refl;
    free_end = refl;
    filled = refl;
    filled_end = refl;
    detached = (
      refl,
      refl,
      (
        free_node 0,
        record { ne_null = λ e. omega (arith, e); holds = refl; capacity = refl },
        refl,
      ),
    );
    single = omega arith;
    free_filled = λ a e. refl;
    free_detached = λ a e. cc;
    filled_detached = λ a e. cc;
  },
  refl,
  refl,
)

abbrev pub running_node : Node
running_node = record { config = client; worker = started two_buffers }
