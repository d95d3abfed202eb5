-- ===== src/Tests/MemoryRedis.antt =====
-- A Redis in memory, for the examples.
mod Operations
mod Laws
use task_mgt_app.Redis.{Redis}
pub use task_mgt_app.Tests.MemoryRedis.Operations.{Memory}
use task_mgt_app.Tests.MemoryRedis.Operations.{
  get, ttl, count, smembers, set, delete, incr, expire, sadd, srem, elapse,
}
use task_mgt_app.Tests.MemoryRedis.Laws.{
  get-set, ttl-set, count-set, smembers-set, get-delete, ttl-delete, count-delete, smembers-delete,
  incr_count, count-incr, get-incr, ttl-incr, ttl-incr_self, smembers-incr, get-expire,
  count-expire, smembers-expire, ttl-expire, ttl-expire_self, ttl-expire_gone, smembers-sadd,
  get-sadd, ttl-sadd, ttl-sadd_self, count-sadd, smembers-srem, get-srem, ttl-srem, ttl-srem_self,
  count-srem, get-elapse, ttl-elapse, count-elapse, smembers-elapse,
}

abbrev pub memory_redis : Redis
memory_redis = record {
  State = Memory;
  get = get;
  ttl = ttl;
  count = count;
  smembers = smembers;
  set = set;
  delete = delete;
  incr = incr;
  expire = expire;
  sadd = sadd;
  srem = srem;
  elapse = elapse;
  get-set = get-set;
  ttl-set = ttl-set;
  count-set = count-set;
  smembers-set = smembers-set;
  get-delete = get-delete;
  ttl-delete = ttl-delete;
  count-delete = count-delete;
  smembers-delete = smembers-delete;
  incr_count = incr_count;
  count-incr = count-incr;
  get-incr = get-incr;
  ttl-incr = ttl-incr;
  ttl-incr_self = ttl-incr_self;
  smembers-incr = smembers-incr;
  get-expire = get-expire;
  count-expire = count-expire;
  smembers-expire = smembers-expire;
  ttl-expire = ttl-expire;
  ttl-expire_self = ttl-expire_self;
  ttl-expire_gone = ttl-expire_gone;
  smembers-sadd = smembers-sadd;
  get-sadd = get-sadd;
  ttl-sadd = ttl-sadd;
  ttl-sadd_self = ttl-sadd_self;
  count-sadd = count-sadd;
  smembers-srem = smembers-srem;
  get-srem = get-srem;
  ttl-srem = ttl-srem;
  ttl-srem_self = ttl-srem_self;
  count-srem = count-srem;
  get-elapse = get-elapse;
  ttl-elapse = ttl-elapse;
  count-elapse = count-elapse;
  smembers-elapse = smembers-elapse;
}
