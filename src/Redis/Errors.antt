-- ===== src/Redis/Errors.antt =====
-- The classification of errors in internal/adapter/repository/redis/log_repository.go.
use watch_tower.Common.{
  ◌≡◌, Bool, true, false, ◌||◌, ◌++◌, arith, Text, codes, has_prefix, contains, contains-append,
  Error, canceled, deadline_exceeded, net_closed, redis_closed, redis_nil, max_bytes, too_long,
  not_implemented, failure, wrapped,
}

-- err.Error()
unfoldable pub message : Error → Text
message canceled = codes "context canceled"
message deadline_exceeded = codes "context deadline exceeded"
message net_closed = codes "use of closed network connection"
message redis_closed = codes "redis: client is closed"
message redis_nil = codes "redis: nil"
message max_bytes = codes "http: request body too large"
message too_long = codes "bufio.Scanner: token too long"
message not_implemented = codes "method not implemented for this repository type"
message (failure m) = m
message (wrapped m e) = m ++ message e

-- errors.Is(err, redis.Nil)
unfoldable pub is_redis_nil : Error → Bool
is_redis_nil redis_nil = true
is_redis_nil (wrapped m e) = is_redis_nil e
is_redis_nil _ = false

-- errors.Is with one of the four sentinels of isNetworkError.
unfoldable pub is_closed_or_ended : Error → Bool
is_closed_or_ended net_closed = true
is_closed_or_ended canceled = true
is_closed_or_ended deadline_exceeded = true
is_closed_or_ended redis_closed = true
is_closed_or_ended (wrapped m e) = is_closed_or_ended e
is_closed_or_ended _ = false

unfoldable pub is_redis_busy_group_error : Error → Bool
unfolding message
is_redis_busy_group_error e = has_prefix (codes "BUSYGROUP") (message e)

unfoldable pub is_network_error : Error → Bool
unfolding message
is_network_error e =
    is_closed_or_ended e
    || (contains (codes "i/o timeout") (message e)
        || contains (codes "connection refused") (message e))

-- A network error is still one behind any message that `fmt.Errorf` puts before it with `%w`, as
-- `bufferLogToRedis` does.
pub is_network_error-wrapped :
    (m : Text) (e : Error) → is_network_error e ≡ true → is_network_error (wrapped m e) ≡ true
unfolding is_network_error is_closed_or_ended
is_network_error-wrapped m e h = ground (
  arith,
  contains-append (codes "i/o timeout") m (message e),
  contains-append (codes "connection refused") m (message e),
)
